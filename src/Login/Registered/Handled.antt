-- ===== src/Login/Registered/Handled.antt =====
-- spawnservice.c, manager.c, spawnregistery.c and server.c: one event of a registered try.
use spawny.Base.{◌≡◌, inl, inr, refl, ◌∙◌, true, false, Option, none, some, Text, ◌==◌, Bool-cases}
use spawny.Manager.{Manager, watched, manager_unregister_fd}
use spawny.Manager.Watched.{
  watches, watches-others, watches-others_other, unrelated, unrelated-others_first,
  unrelated-others_second, watched-manager_unregister_fd,
}
use spawny.SpawnRegistry.Listening.{strangers, unlisten-listens}
use spawny.Spawn.Child.{Message, connect, setup_done, session_active, error_exit}
use spawny.Spawn.Parent.{End, SpawnTry, child_data, spawn_try_free}
use spawny.Server.{Client, session_done}
use spawny.Server.Watched.{unregister_all}
use spawny.Login.Registered.{
  Place, Daemon, is_watched, is_listening, try_free_in, child_data_in, disappear_in,
}

module _ (p : Place) (c : Client) where
  -- What the manager and the registry hold for others: the descriptors but the try's and the
  -- client's, and the entries of other listeners.
  pub record Kept (d d' : Daemon) : Type 0 where
    pub descriptors :
        unrelated p.fd c.fd (watched d'.manager.fds) ≡ unrelated p.fd c.fd (watched d.manager.fds)
    pub listeners :
        strangers p.pid p.handler p.ptr d'.waiting.pending_process
        ≡ strangers p.pid p.handler p.ptr d.waiting.pending_process

module _ (p : Place) (seat : Option Text) (c : Client) where
  -- The try is registered where its own record says so.
  abbrev pub Placed : SpawnTry → Daemon → Type 0
  Placed t d = (is_watched p seat c d ≡ t.pipe_registered) × (is_listening p seat c d ≡ t.listening)

module _ (p : Place) (seat : Option Text) (c : Client) (apart : (p.fd == c.fd) ≡ false)
    (called : (p.handler == 0) ≡ false) where
  pub unregistered :
      (m : Manager) → watches p.fd (watched (manager_unregister_fd p.fd m).fds) ≡ false
  unregistered m = rw (watched-manager_unregister_fd p.fd m) (watches-others p.fd (watched m.fds))

  pub unregistered_kept :
      (m : Manager)
      → unrelated p.fd c.fd (watched (manager_unregister_fd p.fd m).fds)
        ≡ unrelated p.fd c.fd (watched m.fds)
  unregistered_kept m =
      rw (watched-manager_unregister_fd p.fd m) (unrelated-others_first p.fd c.fd (watched m.fds))

  done_watched :
      (end : End) (m : Manager)
      → (watches p.fd (watched (unregister_all (session_done seat c end).0 m).fds)
          ≡ watches p.fd (watched m.fds))
        × (unrelated p.fd c.fd (watched (unregister_all (session_done seat c end).0 m).fds)
            ≡ unrelated p.fd c.fd (watched m.fds))
  unfolding session_done unregister_all spawny.Server.client_goodbye spawny.Server.client_free
  done_watched end m = elim (Bool-cases end.success) [
    | inl q ↦ rw q (
        rw (watched-manager_unregister_fd c.fd m) (
          watches-others_other p.fd c.fd (watched m.fds) apart,
          unrelated-others_second p.fd c.fd (watched m.fds),
        ))
    | inr q ↦ rw q (refl, refl)
  ]

  try_free_in_lem :
      (t : SpawnTry) (d : Daemon)
      → (d' : Daemon) × (try_free_in p seat c t d ≡ some d')
        × (is_watched p seat c d' ≡ false)
        × (is_listening p seat c d' ≡ false)
        × Kept p c d d'
  unfolding try_free_in
  try_free_in_lem t d =
      let end : End = record { success = t.success; message = t.error_msg } in
      let closed = manager_unregister_fd p.fd d.manager in
      let told = done_watched end closed in
      let (r, e, l, s) = unlisten-listens p.pid p.handler p.ptr d.waiting called in
      (
        record { manager = unregister_all (session_done seat c end).0 closed; waiting = r },
        rw e,
        told.0 ∙ unregistered d.manager,
        l,
        record { descriptors = told.1 ∙ unregistered_kept d.manager; listeners = s },
      )

  pub child_data_in_lem :
      (m : Message) (found : Option Text) (t : SpawnTry) (d : Daemon)
      → Placed p seat c t d
      → (d' : Daemon) × (child_data_in p seat c m t d ≡ some d')
        × Placed p seat c (child_data m found t) d'
        × Kept p c d d'
  unfolding child_data_in child_data spawn_try_free
  child_data_in_lem connect found t d h =
      (d, refl, h, record { descriptors = refl; listeners = refl })
  child_data_in_lem setup_done none t d h =
      (d, refl, h, record { descriptors = refl; listeners = refl })
  child_data_in_lem setup_done (some s) t d h =
      (d, refl, h, record { descriptors = refl; listeners = refl })
  child_data_in_lem session_active found t d h =
      let d0 : Daemon = record d { manager = manager_unregister_fd p.fd d.manager } in
      let (d', e, w, l, k) = try_free_in_lem (record t { success = true }) d0 in
      (
        d',
        e,
        (w, l),
        record {
          descriptors = k.descriptors ∙ unregistered_kept d.manager;
          listeners = k.listeners;
        },
      )
  child_data_in_lem (error_exit reason) found t d h = (
    record d { manager = manager_unregister_fd p.fd d.manager },
    refl,
    (unregistered d.manager, h.1),
    record { descriptors = unregistered_kept d.manager; listeners = refl },
  )

  pub disappear_in_lem :
      (t : SpawnTry) (d : Daemon)
      → (d' : Daemon) × (disappear_in p seat c t d ≡ some d')
        × Placed p seat c (spawn_try_free t) d'
        × Kept p c d d'
  unfolding disappear_in spawn_try_free
  disappear_in_lem t d =
      let (d', e, w, l, k) = try_free_in_lem t d in
      let (r, e', l', s) = unlisten-listens p.pid p.handler p.ptr d'.waiting called in
      (
        record d' { waiting = r },
        rw (e, e'),
        (w, l'),
        record { descriptors = k.descriptors; listeners = s ∙ k.listeners },
      )
