-- ===== src/Login/Restart.antt =====
-- spawnservice.c, server.c, client.c and greeter.c together: how the greeter of a seat comes back when
-- a session is over.
use spawny.Base.{
  ℕ, suc, ◌+◌, ◌≡◌, refl, Bool, true, false, List, [], ◌∷◌, ◌++◌, Option, none, some, Text, arith,
}
use spawny.Spawn.Job.{in_job, in_waiter, Deed, session_ended, session_proc_fire_up}
use spawny.Client.Read.{Service, Incoming, failed, message, leave, sp_client_greeter_start}
use spawny.Server.{
  Client, System, Action, send_leave, received, greeter_start, client_data, dispatch,
  client_goodbye, client_free,
}
use spawny.Greeter.{
  live, SeatGreeter, Effects, Spawned, child, Run, returns, faults, out_of_fuel, activate,
  greeter_new, greeter_search, session_of,
}
use spawny.Daemon.{Config, reexecute_greeter}

-- What a client reads of the daemon's actions.
abbrev pub answer : List Action → Incoming
answer [] = failed
answer (send_leave ∷ acts) = message leave
answer (a ∷ acts) = answer acts

-- What the process behind a session makes of its deeds: the answers of its `session_ended`, which is
-- `_reexecute_greeter`.
abbrev pub restarts : Config → List Text → Service → Incoming → List Deed → List (Option Bool)
restarts config args service incoming [] = []
restarts config args service incoming (session_ended ∷ deeds) =
    reexecute_greeter config args service incoming ∷ restarts config args service incoming deeds
restarts config args service incoming (d ∷ deeds) = restarts config args service incoming deeds

module _ (session_get : ℕ → Option Text) (spawns : ℕ → Spawned) where
  -- What the daemon's actions do to the greeters.
  abbrev pub activations :
      ℕ → List Action → List SeatGreeter → Effects → Run (List SeatGreeter × Effects)
  activations fuel [] gs fx = returns (gs, fx)
  activations fuel (spawny.Server.greeter_activate seat ∷ acts) gs fx =
      elim (spawny.Greeter.greeter_activate session_get spawns fuel seat gs fx) [
        | returns (hs, gx) ↦ activations fuel acts hs gx
        | faults ↦ faults
        | out_of_fuel ↦ out_of_fuel
      ]
  activations fuel (a ∷ acts) gs fx = activations fuel acts gs fx

  -- Where greeters are restarted, the daemon can be connected to and takes the process for alive, on a
  -- seat that has no greeter and where the next process can be started: of the processes that a login
  -- leaves, the one that waits for the session, and no other, asks the daemon for a greeter, once, and
  -- is told of a success; the daemon activates the greeter of that seat, dismisses the process, and
  -- the greeter starts, with no restart counted.
  pub session_proc_fire_up-greeter_activate :
      (config : Config) (args : List Text) (service : Service) (sock : ℕ) (sys : System)
      (c : Client) (seat : Text) (fuel : ℕ) (gs : List SeatGreeter) (fx : Effects) (pid : ℕ)
      → config.no_greeter_restart ≡ false
      → service.connect (spawny.Client.Read.parse_args args false) ≡ some sock
      → sys.is_alive ≡ true
      → sys.seat_get ≡ some seat
      → greeter_search seat gs ≡ none
      → spawns fx.spawned ≡ child pid
      → (acts : List Action) × (client_data sys c (received greeter_start) ≡ some (acts, none))
        × (restarts config args service (answer acts) (session_proc_fire_up true true in_waiter)
            ≡ some true ∷ [])
        × (restarts config args service (answer acts) (session_proc_fire_up true true in_job) ≡ [])
        × (activations (suc fuel) acts gs fx
            ≡ returns (
              gs ++ record (greeter_new seat) { run_try = live pid } ∷ [],
              record fx { spawned = fx.spawned + 1 },
            ))
  unfolding client_data dispatch client_goodbye client_free session_proc_fire_up reexecute_greeter
      sp_client_greeter_start spawny.Greeter.greeter_activate activate session_of greeter_new
  session_proc_fire_up-greeter_activate config args service sock sys c seat fuel gs fx pid on reach
        alive at gone next =
      (
        spawny.Server.greeter_activate seat ∷ client_goodbye c,
        ground arith,
        ground (arith, on, reach),
        refl,
        ground (arith, gone, next),
      )
