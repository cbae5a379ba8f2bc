-- ===== src/Examples/Seats.antt =====
-- The greeters of the seats, and a login from the try to the client, at concrete inputs.
use spawny.Base.{
  ℕ, ◌≡◌, refl, true, false, List, [], ◌∷◌, ◌++◌, Option, none, some, Text, codes, str_eq,
  if◌then◌else◌,
}
use spawny.Greeter.{
  null, live, SeatGreeter, Effects, Spawned, child, returns, greeter_new, greeter_search,
  greeter_died, greeter_activate, greeter_lockout,
}
use spawny.Greeter.Cycle.{lockout-died-activate}
use spawny.Spawn.Pam.{child_program}
use spawny.Login.{Told, run-child_program-session_done}
use spawny.Examples.Spawning.{good_tty, wrong_password, alice, on_seat}
use spawny.Examples.Logins.{busy}
use spawny.Spawn.Job.{in_job, in_waiter, session_proc_fire_up}
use spawny.Client.Read.{Service}
use spawny.Server.{Action, received, greeter_start, client_data}
use spawny.Daemon.{Config}
use spawny.Login.Restart.{answer, restarts, activations, session_proc_fire_up-greeter_activate}
use spawny.Examples.Logins.{system}

abbrev session_get : ℕ → Option Text
session_get pid = none

abbrev spawns : ℕ → Spawned
spawns n = child 900

abbrev effects : Effects
effects = record { activated = []; spawned = 3; listened = [] }

abbrev seat_greeter : Text → SeatGreeter
seat_greeter seat = record {
  seat = seat;
  run_gen = 1;
  run_try = null;
  run_pid = some 800;
  end = false;
}

abbrev two_seats : List SeatGreeter
two_seats = seat_greeter (codes "seat0") ∷ seat_greeter (codes "seat1") ∷ []

cycle_example :
    (locked : List SeatGreeter) × (greeter_lockout (some (codes "seat0")) two_seats
      ≡ returns locked)
    × (left : List SeatGreeter) × (greeter_died session_get spawns 6 (some 0) locked effects
        ≡ returns (left, effects))
    × ((s : Text)
        → greeter_search s left
          ≡ (if str_eq (codes "seat0") s then none else greeter_search s two_seats))
    × (greeter_activate session_get spawns 7 (codes "seat0") left effects
        ≡ returns (
          left ++ record (greeter_new (codes "seat0")) { run_try = live 900 } ∷ [],
          record effects { spawned = 4 },
        ))
unfolding greeter_search str_eq spawny.Greeter.seat_greeter_pid_get
cycle_example =
    lockout-died-activate session_get spawns 6 (codes "seat0") two_seats 0
      (seat_greeter (codes "seat0")) effects (some 800) 900 (refl, (refl, tt)) refl refl refl refl

told_example :
    Told good_tty wrong_password
      (some (codes "pw"))
      none
      none
      2
      (codes "seat0")
      busy
      (child_program good_tty wrong_password (some (codes "pw")) alice on_seat 11 none)
told_example =
    run-child_program-session_done good_tty wrong_password (some (codes "pw")) alice on_seat 11 none
      none 2 (codes "seat0") busy

abbrev restarting : Config
restarting = record { debug = false; no_greeter_restart = false }

abbrev service : Service
service = record { connect = λ debug. some 4; written = true }

restart_example :
    (acts : List Action) × (client_data (system true) busy (received greeter_start)
      ≡ some (acts, none))
    × (restarts restarting [] service (answer acts) (session_proc_fire_up true true in_waiter)
        ≡ some true ∷ [])
    × (restarts restarting [] service (answer acts) (session_proc_fire_up true true in_job) ≡ [])
    × (activations session_get spawns 7 acts [] effects
        ≡ returns (
          [] ++ record (greeter_new (codes "seat0")) { run_try = live 900 } ∷ [],
          record effects { spawned = 4 },
        ))
unfolding greeter_search
restart_example =
    session_proc_fire_up-greeter_activate session_get spawns restarting [] service 4 (system true)
      busy (codes "seat0") 6 [] effects 900 refl refl refl refl refl refl
