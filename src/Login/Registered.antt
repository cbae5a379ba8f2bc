-- ===== src/Login/Registered.antt =====
-- spawnservice.c, manager.c, spawnregistery.c and server.c together: what the manager and the spawn
-- registry hold of the try of a client, through every order of messages, deaths and rounds.
pub mod Handled
pub mod Placed
use spawny.Base.{
  ℕ, ◌+◌, ◌≡◌, ◌⊎◌, inl, inr, refl, ap, sym, ◌∙◌, Bool, true, false, not, List, [], ◌∷◌, Option,
  none, some, Text, ◌==◌, arith, keep, if◌then◌else◌, ◌>>=◌, Bool-cases,
}
use spawny.Manager.{Manager, watched, flush, manager_register_fd, manager_unregister_fd}
use spawny.Manager.Watched.{
  others, watches, watches-others, watches-others_other, unrelated, unrelated-others_first,
  unrelated-others_second, unrelated-added, watched-manager_unregister_fd,
  watched-manager_register_fd, watches-added, watched-flush,
}
use spawny.SpawnRegistry.{Registry, listen, unlisten, cleanup_all}
use spawny.SpawnRegistry.Cleanup.{has_handler, cleanup_all_lem}
use spawny.SpawnRegistry.Listening.{
  listens, strangers, strangers-keep, listens-keep, unlisten-listens, listen-listens,
}
use spawny.Spawn.Child.{Message, connect, setup_done, session_active, error_exit}
use spawny.Spawn.Parent.{
  End, SpawnTry, Event, message, garbage, disappear, child_data, spawn_try_free, step, run, started,
}
use spawny.Server.{Client, session_done}
use spawny.Server.Watched.{unregister_all}

-- The read end of the pipe, the child, and the addresses of `_child_data`, of
-- `_spawned_session_disappear` and of the try.
pub record Place : Type 0 where
  pub fd : ℕ
  pub pid : ℕ
  pub cb : ℕ
  pub handler : ℕ
  pub ptr : ℕ

pub record Daemon : Type 0 where
  pub manager : Manager
  pub waiting : Registry

-- What happens: an event of the try, where it is registered for it; a round of the manager begins
-- or ends; an evaluation of the spawn registry begins or ends.
pub data Happening : Type 0 where
  event : Event → Happening
  round_begins round_ends eval_begins eval_ends : Happening

abbrev pub events : List Happening → List Event
events [] = []
events (event e ∷ hs) = e ∷ events hs
events (round_begins ∷ hs) = events hs
events (round_ends ∷ hs) = events hs
events (eval_begins ∷ hs) = events hs
events (eval_ends ∷ hs) = events hs

-- The daemon's branch of `child_run`.
unfoldable pub child_registered : Place → Daemon → Daemon
child_registered p d = record {
  manager = manager_register_fd p.fd p.cb d.manager;
  waiting = listen p.pid p.handler p.ptr d.waiting;
}

module _ (p : Place) (seat : Option Text) (c : Client) where
  abbrev pub is_watched : Daemon → Bool
  is_watched d = watches p.fd (watched d.manager.fds)

  abbrev pub is_listening : Daemon → Bool
  is_listening d = listens p.pid p.handler p.ptr d.waiting.pending_process

  -- `_spawn_try_free`, with `_session_done` as its `done.cb`.
  unfoldable pub try_free_in : SpawnTry → Daemon → Option Daemon
  try_free_in t d =
      let end : End = record { success = t.success; message = t.error_msg } in
      let closed = manager_unregister_fd p.fd d.manager in
      let told = unregister_all (session_done seat c end).0 closed in
      unlisten p.pid p.handler p.ptr d.waiting >>= λ r.
      some (record { manager = told; waiting = r })

  -- `_child_data` behind its reading of a message.
  unfoldable pub child_data_in : Message → SpawnTry → Daemon → Option Daemon
  child_data_in connect t d = some d
  child_data_in setup_done t d = some d
  child_data_in session_active t d =
      try_free_in (record t { success = true })
        (record d { manager = manager_unregister_fd p.fd d.manager })
  child_data_in (error_exit reason) t d =
      some (record d { manager = manager_unregister_fd p.fd d.manager })

  -- The call of `_spawned_session_disappear` by `spawnregistery_eval`, which takes the entry out once
  -- more.
  unfoldable pub disappear_in : SpawnTry → Daemon → Option Daemon
  unfolding try_free_in
  disappear_in t d = try_free_in t d >>= λ d'.
      unlisten p.pid p.handler p.ptr d'.waiting >>= λ r. some (record d' { waiting = r })

  unfoldable pub step_in : Happening → SpawnTry × Daemon → Option (SpawnTry × Daemon)
  unfolding child_data_in disappear_in child_data step
  step_in (event (message m found)) (t, d) =
      let handled = child_data_in m t d >>= λ d'. some (child_data m found t, d') in
      if is_watched d then handled else some (t, d)
  step_in (event garbage) (t, d) =
      let handled : SpawnTry × Daemon = (
        record t { pipe_registered = false; kills = t.kills + 1 },
        record d { manager = manager_unregister_fd p.fd d.manager },
      ) in
      some (if is_watched d then handled else (t, d))
  step_in (event disappear) (t, d) =
      let handled = disappear_in t d >>= λ d'. some (spawn_try_free t, d') in
      if is_listening d then handled else some (t, d)
  step_in round_begins (t, d) = some (t, record d { manager = record d.manager { readout = true } })
  step_in round_ends (t, d) =
      let m = d.manager in
      let flushed : Manager = record m {
        fds = flush m.changes m.fds;
        changes = 0;
        readout = false;
      } in
      some (t, record d { manager = flushed })
  step_in eval_begins (t, d) =
      some (t, record d { waiting = record d.waiting { eval_mode = true } })
  step_in eval_ends (t, d) = cleanup_all d.waiting.pending_process >>= λ ws.
      some (t, record d { waiting = record { pending_process = ws; eval_mode = false } })

  unfoldable pub run_in : List Happening → SpawnTry × Daemon → Option (SpawnTry × Daemon)
  unfolding step_in
  run_in [] s = some s
  run_in (h ∷ hs) s = step_in h s >>= λ s'. run_in hs s'
