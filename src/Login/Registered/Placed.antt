-- ===== src/Login/Registered/Placed.antt =====
-- spawnservice.c, manager.c, spawnregistery.c and server.c: a try that is told of is registered
-- nowhere.
use spawny.Base.{
  ◌+◌, ◌≡◌, ◌⊎◌, inl, inr, refl, ap, sym, subst, ◌∙◌, Bool, true, false, List, [], ◌∷◌, Option,
  some, Text, ◌==◌, keep, if◌then◌else◌, Bool-cases,
}
use spawny.Manager.{watched, manager_unregister_fd}
use spawny.Manager.Watched.{
  unrelated-added, watched-manager_register_fd, watches-added, watched-flush,
}
use spawny.SpawnRegistry.Cleanup.{has_handler, cleanup_all_lem}
use spawny.SpawnRegistry.Listening.{strangers-keep, listens-keep, listen-listens}
use spawny.Spawn.Parent.{
  SpawnTry, IsPending, run-Settled, message, garbage, disappear, child_data, spawn_try_free, step,
  run, started,
}
use spawny.Server.{Client}
use spawny.Login.Registered.{
  Place, Daemon, Happening, event, round_begins, round_ends, eval_begins, eval_ends, events,
  child_registered, is_watched, is_listening, step_in, run_in,
}
use spawny.Login.Registered.Handled.{
  Kept, Placed, unregistered, unregistered_kept, child_data_in_lem, disappear_in_lem,
}

if_true {ℓ} : {A : Type ℓ} (b : Bool) (x y : A) → b ≡ true → (if b then x else y) ≡ x
if_true true x y h = refl
if_true false x y h = cc

if_false {ℓ} : {A : Type ℓ} (b : Bool) (x y : A) → b ≡ false → (if b then x else y) ≡ y
if_false true x y h = cc
if_false false x y h = refl

module _ (p : Place) (seat : Option Text) (c : Client) (apart : (p.fd == c.fd) ≡ false)
    (called : (p.handler == 0) ≡ false) where
  -- What a happening does to the record of the try.
  abbrev pub after : Happening → SpawnTry → SpawnTry
  after (event e) t = step e t
  after round_begins t = t
  after round_ends t = t
  after eval_begins t = t
  after eval_ends t = t

  abbrev Steps : Happening → SpawnTry → SpawnTry → Daemon → Type 0
  Steps h t u d =
      (d' : Daemon) × (step_in p seat c h (t, d) ≡ some (u, d'))
      × Placed p seat c u d'
      × Kept p c d d'

  moved :
      (h : Happening) (t u : SpawnTry) (d : Daemon)
      → after h t ≡ u
      → Steps h t u d
      → Steps h t (after h t) d
  moved h t u d e x = subst (λ v. Steps h t v d) (sym e) x

  stays :
      (h : Happening) (t : SpawnTry) (d : Daemon)
      → Placed p seat c t d
      → step_in p seat c h (t, d) ≡ some (t, d)
      → Steps h t t d
  stays h t d placed e = (d, e, placed, record { descriptors = refl; listeners = refl })

  step_in_lem :
      (h : Happening) (t : SpawnTry) (d : Daemon)
      → Placed p seat c t d
      → (d' : Daemon) × (step_in p seat c h (t, d) ≡ some (after h t, d'))
        × Placed p seat c (after h t) d'
        × Kept p c d d'
  unfolding step_in step
  step_in_lem (event (message m found)) t d h = elim (Bool-cases (is_watched p seat c d)) [
    | inl q ↦
        let (d', e, l, k) = child_data_in_lem p seat c apart called m found t d h in
        moved (event (message m found)) t (child_data m found t) d
          (if_true t.pipe_registered (child_data m found t) t (sym h.0 ∙ q)) (d', rw (q, e), l, k)
    | inr q ↦
        moved (event (message m found)) t t d
          (if_false t.pipe_registered (child_data m found t) t (sym h.0 ∙ q))
          (stays (event (message m found)) t d h (rw q))
  ]
  step_in_lem (event garbage) t d h =
      let quit : SpawnTry = record t { pipe_registered = false; kills = t.kills + 1 } in
      elim (Bool-cases (is_watched p seat c d)) [
        | inl q ↦ moved (event garbage) t quit d (if_true t.pipe_registered quit t (sym h.0 ∙ q)) (
          record d { manager = manager_unregister_fd p.fd d.manager },
          rw q,
          (unregistered p seat c apart called d.manager, h.1),
          record {
            descriptors = unregistered_kept p seat c apart called d.manager;
            listeners = refl;
          },
        )
        | inr q ↦
            moved (event garbage) t t d (if_false t.pipe_registered quit t (sym h.0 ∙ q))
              (stays (event garbage) t d h (rw q))
      ]
  step_in_lem (event disappear) t d h = elim (Bool-cases (is_listening p seat c d)) [
    | inl q ↦
        let (d', e, l, k) = disappear_in_lem p seat c apart called t d in
        moved (event disappear) t (spawn_try_free t) d
          (if_true t.listening (spawn_try_free t) t (sym h.1 ∙ q)) (d', rw (q, e), l, k)
    | inr q ↦
        moved (event disappear) t t d (if_false t.listening (spawn_try_free t) t (sym h.1 ∙ q))
          (stays (event disappear) t d h (rw q))
  ]
  step_in_lem round_begins t d h = (
    record d { manager = record d.manager { readout = true } },
    refl,
    h,
    record { descriptors = refl; listeners = refl },
  )
  step_in_lem round_ends t d h =
      let e = watched-flush d.manager.changes d.manager.fds in
      (_, refl, (rw e h.0, h.1), record { descriptors = rw e refl; listeners = refl })
  step_in_lem eval_begins t d h = (
    record d { waiting = record d.waiting { eval_mode = true } },
    refl,
    h,
    record { descriptors = refl; listeners = refl },
  )
  step_in_lem eval_ends t d h =
      let ws = d.waiting.pending_process in
      (
        record d { waiting = record { pending_process = keep has_handler ws; eval_mode = false } },
        rw (cleanup_all_lem ws),
        (h.0, listens-keep p.pid p.handler p.ptr ws called ∙ h.1),
        record { descriptors = refl; listeners = strangers-keep p.pid p.handler p.ptr ws },
      )

  run-after :
      (h : Happening) (hs : List Happening) (t : SpawnTry)
      → run (events hs) (after h t) ≡ run (events (h ∷ hs)) t
  unfolding run
  run-after (event e) hs t = refl
  run-after round_begins hs t = refl
  run-after round_ends hs t = refl
  run-after eval_begins hs t = refl
  run-after eval_ends hs t = refl

  run_in_lem :
      (hs : List Happening) (t : SpawnTry) (d : Daemon)
      → Placed p seat c t d
      → (d' : Daemon) × (run_in p seat c hs (t, d) ≡ some (run (events hs) t, d'))
        × Placed p seat c (run (events hs) t) d'
        × Kept p c d d'
  unfolding run_in
  run_in_lem [] t d h =
      (d, unfold run in refl, unfold run in h, record { descriptors = refl; listeners = refl })
  run_in_lem (h ∷ hs) t d placed =
      let (d', e, l, k) = step_in_lem h t d placed in
      let (d'', e', l', k') = run_in_lem hs (after h t) d' l in
      (
        d'',
        rw e (e' ∙ ap (λ (u : SpawnTry). some (u, d'')) (run-after h hs t)),
        rw (← run-after h hs t) l',
        record {
          descriptors = k'.descriptors ∙ k.descriptors;
          listeners = k'.listeners ∙ k.listeners;
        },
      )

-- A try of a client, in a daemon in whatever state, with a descriptor that is not the client's,
-- through messages, deaths, rounds of the manager and evaluations of the registry in any order: the
-- daemon handles them all, and as the try alone would; the pipe is watched, and the child's death
-- waited for, exactly where the try says so, so that nothing of it is left where its owner was
-- told; and the descriptors and listeners of others are as before.
pub run_in-run :
    (p : Place) (seat : Option Text) (c : Client) (hs : List Happening) (d : Daemon)
    (apart : (p.fd == c.fd) ≡ false) (called : (p.handler == 0) ≡ false)
    → let t = run (events hs) started in
      (d' : Daemon) × (run_in p seat c hs (started, child_registered p d) ≡ some (t, d'))
      × (is_watched p seat c d' ≡ t.pipe_registered)
      × (is_listening p seat c d' ≡ t.listening)
      × (IsPending t ⊎ ((is_watched p seat c d' ≡ false) × (is_listening p seat c d' ≡ false)))
      × Kept p c d d'
unfolding child_registered
run_in-run p seat c hs d apart called =
    let w = watched-manager_register_fd p.fd p.cb d.manager in
    let l = listen-listens p.pid p.handler p.ptr d.waiting in
    let (d', e, placed, k) =
      run_in_lem p seat c apart called hs started (child_registered p d)
        (rw w (watches-added p.fd (watched d.manager.fds)), l.0) in
    (
      d',
      e,
      placed.0,
      placed.1,
      elim (run-Settled (events hs)) [
        | inl pending ↦ inl pending
        | inr gone ↦ inr (placed.0 ∙ gone.2, placed.1 ∙ gone.1)
      ],
      record {
        descriptors = k.descriptors ∙ rw w (unrelated-added p.fd c.fd (watched d.manager.fds));
        listeners = k.listeners ∙ l.1;
      },
    )
