-- ===== src/Examples/Logins.antt =====
-- server.c: the login tries of a client at concrete inputs.
use spawny.Base.{◌≤◌, List, ◌⊎◌, arith, ◌≡◌, refl, Bool, true, false, [], ◌∷◌, none, some, codes}
use spawny.Server.{
  Client, Login, System, login_try, received, closed, spawn, feedback, client_is_greeter,
  client_data,
}
use spawny.Server.Life.{World, Reach, here, next, receive, IsServed, connected, one_try}
use spawny.Server.Locked.{login_locked}
use spawny.Spawn.Parent.{started, message, disappear, run, IsPending}
use spawny.Spawn.Child.{error_exit}
use spawny.Login.Registered.{
  Place, Daemon, Happening, event, round_begins, round_ends, eval_begins, eval_ends, events,
  child_registered, is_watched, is_listening, run_in,
}
use spawny.Login.Registered.Handled.{Kept}
use spawny.Login.Registered.Placed.{run_in-run}

abbrev pub system : Bool → System
system tty = record {
  debug = false;
  exists_sid = true;
  seat_get = some (codes "seat0");
  session_details = λ id. true;
  is_alive = true;
  pipe_ok = true;
  tty_found = tty;
  fork_ok = true;
}

abbrev bob_login : Login
bob_login = record { user = codes "bob"; password = codes "pw"; template_id = codes "t1" }

abbrev idle : Client
idle = record { fd = 7; pid = 500; login_runs = false }

abbrev pub busy : Client
busy = record { fd = 7; pid = 500; login_runs = true }

abbrev trying : World
trying = record { client = some busy; tries = 1 }

one_try_example :
    (trying.tries ≤ 1)
    × ((trying.tries ≡ 0)
        ⊎ (trying.client ≡ none)
        ⊎ ((c : Client) × (trying.client ≡ some c) × (c.login_runs ≡ true)))
unfolding client_data client_is_greeter spawny.Server.dispatch spawny.Server.login
    spawny.Server.store_try spawny.Server.deliver spawny.Spawn.Parent.spawnservice_spawn
    spawny.Server.Life.starts
one_try_example = one_try 7 500 {w = trying} (
    next here (
      receive (system true) (received (login_try (some bob_login))) idle
        (spawn bob_login (some (codes "seat0")) ∷ [], some busy) refl refl refl))

locked_example :
    (client_data (system false) idle (received (login_try (some bob_login)))
      ≡ some (spawn bob_login (some (codes "seat0")) ∷ (feedback false none ∷ []), some busy))
    × (client_data (system false) busy (received (login_try none))
        ≡ some (feedback false (some (codes "There is already a login try!")) ∷ [], some busy))
unfolding client_is_greeter
locked_example =
    login_locked (system false) (system false) idle bob_login none refl refl refl refl refl refl
      refl

abbrev place : Place
place = record { fd = 11; pid = 600; cb = 310; handler = 320; ptr = 9000 }

abbrev before : Daemon
before = record {
  manager = record {
    fds = record { fd = 5; cb = some 300 } ∷ record { fd = 7; cb = some 305 } ∷ [];
    stop = false;
    changes = 0;
    readout = false;
  };
  waiting = record {
    pending_process = record { pid = 700; handler = 320; data_ptr = 8000 } ∷ [];
    eval_mode = false;
  };
}

-- The child reports an error while the manager reads, and its death is found before the round ends.
abbrev happenings : List Happening
happenings =
    round_begins
    ∷ event (message (error_exit (codes "no")) none)
    ∷ eval_begins
    ∷ event disappear
    ∷ eval_ends
    ∷ round_ends
    ∷ []

registered_example :
    (d' : Daemon) × (run_in place
        (some (codes "seat0"))
        busy
        happenings
        (started, child_registered place before)
      ≡ some (run (events happenings) started, d'))
    × (is_watched place (some (codes "seat0")) busy d'
        ≡ (run (events happenings) started).pipe_registered)
    × (is_listening place (some (codes "seat0")) busy d'
        ≡ (run (events happenings) started).listening)
    × (IsPending (run (events happenings) started)
        ⊎ ((is_watched place (some (codes "seat0")) busy d' ≡ false)
            × (is_listening place (some (codes "seat0")) busy d' ≡ false)))
    × Kept place busy before d'
registered_example =
    run_in-run place (some (codes "seat0")) busy happenings before (ground arith) (ground arith)
