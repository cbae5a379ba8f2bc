-- ===== src/Examples/Requests.antt =====
-- server.c at concrete inputs.
use spawny.Base.{All, ◌≡◌, refl, Bool, true, false, List, [], ◌∷◌, none, some, codes}
use spawny.Server.{
  Client, session_activation, greeter_start, login_try, received, closed, System, Action,
  unregister_fd, close_fd, free_client, client_is_greeter, client_data,
}
use spawny.Spawn.Parent.{End}
use spawny.Manager.{Manager}
use spawny.Server.{session_done}
use spawny.Server.Watched.{Request, registers, concerns, IsWatched, client_data-IsWatched}
use spawny.Server.Access.{client_data_refused}

abbrev client : Client
client = record { fd = 7; pid = 500; login_runs = false }

abbrev system : Bool → System
system greeter = record {
  debug = false;
  exists_sid = greeter;
  seat_get = some (codes "seat0");
  session_details = λ id. true;
  is_alive = true;
  pipe_ok = true;
  tty_found = true;
  fork_ok = true;
}

refused_example :
    client_data (system false) client (received (session_activation (some (codes "c2"))))
    ≡ some (unregister_fd 7 ∷ (close_fd 7 ∷ (free_client ∷ [])), none)
unfolding client_is_greeter
refused_example =
    client_data_refused (system false) client (session_activation (some (codes "c2"))) refl tt

abbrev watching : Manager
watching = record {
  fds = record { fd = 7; cb = some 300 } ∷ record { fd = 9; cb = some 300 } ∷ [];
  stop = false;
  changes = 0;
  readout = true;
}

abbrev ended : End
ended = record { success = true; message = none }

-- A try is watched for at descriptor 21, and a greeter at 22.
abbrev asks : Action → List Request
asks (Action.spawn l seat) = registers 21 300 ∷ []
asks (Action.greeter_activate seat) = registers 22 300 ∷ []
asks a = []

asks_apart : (a : Action) → All (λ q. concerns q 7 ≡ false) (asks a)
asks_apart (Action.spawn l seat) = (refl, tt)
asks_apart (Action.greeter_activate seat) = (refl, tt)
asks_apart a = tt

watched_example :
    IsWatched asks 7 22 watching (
      Action.greeter_activate (codes "seat0")
          ∷ Action.send_leave
          ∷ unregister_fd 7
          ∷ close_fd 7
          ∷ free_client
          ∷ [],
      none,
    )
    × IsWatched asks 7 22 watching (session_done (some (codes "seat0")) client ended)
unfolding client_data spawny.Server.dispatch spawny.Server.client_free spawny.Server.client_goodbye
watched_example =
    client_data-IsWatched asks (system true) client (received greeter_start)
      (
        Action.greeter_activate (codes "seat0")
            ∷ Action.send_leave
            ∷ unregister_fd 7
            ∷ close_fd 7
            ∷ free_client
            ∷ [],
        none,
      )
      (some (codes "seat0")) ended watching 22 asks_apart refl refl
