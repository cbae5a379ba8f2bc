-- ===== src/Server/Locked.antt =====
-- server.c and spawnservice.c: what a login leaves that finds no terminal or no process.
use spawny.Base.{◌≡◌, true, false, ◌&&◌, [], ◌∷◌, Option, none, some, codes, arith, not, is_some}
use spawny.Spawn.Parent.{spawnservice_spawn}
use spawny.Server.{
  Client, Login, login_try, received, System, feedback, spawn, client_is_greeter, login, dispatch,
  client_data, session_done, deliver, store_try,
}

-- Where the client is a greeter with a seat, and there is a pipe but no terminal or no process: a
-- login is answered by a failure, and leaves the client with the address of a freed try, so that
-- every later login of it is refused.
pub login_locked :
    (sys later : System) (c : Client) (l : Login) (m : Option Login)
    → client_is_greeter sys ≡ true
    → sys.debug && not (is_some sys.seat_get) ≡ false
    → sys.pipe_ok ≡ true
    → sys.tty_found && sys.fork_ok ≡ false
    → c.login_runs ≡ false
    → client_is_greeter later ≡ true
    → later.debug && not (is_some later.seat_get) ≡ false
    → let left : Client = record c { login_runs = true } in
      (client_data sys c (received (login_try (some l)))
        ≡ some (spawn l sys.seat_get ∷ (feedback false none ∷ []), some left))
      × (client_data later left (received (login_try m))
          ≡ some (feedback false (some (codes "There is already a login try!")) ∷ [], some left))
unfolding client_data dispatch login store_try spawnservice_spawn deliver session_done
login_locked sys later c l m greeter seat pipe fails idle greeter' seat' =
    (ground arith, ground arith)
