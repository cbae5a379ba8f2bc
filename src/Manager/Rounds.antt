-- ===== src/Manager/Rounds.antt =====
-- manager.c: what a round leaves of the registered descriptors.
use spawny.Base.{
  ℕ, zero, suc, ◌+◌, ◌≤◌, ◌<◌, ◌≡◌, refl, ◌∙◌, Bool, true, false, List, [], ◌∷◌, some, arith,
  get_elem?, length, Bool-cases, Option-cases, inl, inr,
}
use spawny.Manager.{
  FdRegister, Manager, Request, register, unregister, stops, manager_unregister_fd, request,
  requests, flush, watched, Selected, ready, error_available, read_available, check_loop,
  manager_round,
}
use spawny.Manager.Marks.{
  dead, Distinct, flush-keep, dead-mark, mark-Distinct, length-mark, dead-keep, keep-Distinct,
  within,
}

-- While the descriptors of a round are handled: the changes cover the entries without a callback.
record Reading (n : ℕ) (m : Manager) : Type 0 where
  covered : dead m.fds ≤ m.changes
  distinct : Distinct m.fds
  reading : m.readout ≡ true
  count : length m.fds ≡ n

-- Between two rounds: every entry has a callback, and no descriptor is there twice.
pub record Idle (m : Manager) : Type 0 where
  pub all_live : dead m.fds ≡ 0
  pub distinct : Distinct m.fds
  pub no_changes : m.changes ≡ 0
  pub not_reading : m.readout ≡ false

-- Requests that register nothing.
abbrev pub Leaving : List Request → Type 0
Leaving [] = Unit {0}
Leaving (register fd cb ∷ qs) = ⊥
Leaving (unregister fd ∷ qs) = Leaving qs
Leaving (stops ∷ qs) = Leaving qs

unregister-Reading : (n fd : ℕ) (m : Manager) → Reading n m → Reading n (manager_unregister_fd fd m)
unfolding manager_unregister_fd
unregister-Reading n fd m h = rw h.reading (record {
  covered = omega (arith, dead-mark fd m.fds h.distinct, h.covered);
  distinct = mark-Distinct fd m.fds h.distinct;
  reading = refl;
  count = length-mark fd m.fds ∙ h.count;
})

requests-Reading :
    (n : ℕ) (qs : List Request) (m : Manager) → Leaving qs → Reading n m → Reading n (requests qs m)
unfolding requests request
requests-Reading n [] m l h = h
requests-Reading n (register fd cb ∷ qs) m l h = elim l [ ]
requests-Reading n (unregister fd ∷ qs) m l h =
    requests-Reading n qs (manager_unregister_fd fd m) l (unregister-Reading n fd m h)
requests-Reading n (stops ∷ qs) m l h =
    requests-Reading n qs _ l
      (record { covered = h.covered; distinct = h.distinct; reading = h.reading; count = h.count })

module _ {W : Type 0} (react : ℕ → ℕ → W → W × List Request) where
  check_loop-Reading :
      (handle : FdRegister → W × Manager → W × Manager) (set : ℕ → Bool) (n fuel i : ℕ)
      (s : W × Manager)
      → ((r : FdRegister) (t : W × Manager) → Reading n t.1 → Reading n (handle r t).1)
      → Reading n s.1
      → i ≤ n
      → n < fuel + i
      → (t : W × Manager) × (check_loop react handle set fuel i s ≡ some t) × Reading n t.1
  unfolding check_loop
  check_loop-Reading handle set n zero i s keeps h le lt = absurd (omega arith)
  check_loop-Reading handle set n (suc fuel) i s keeps h le lt =
      elim (Option-cases (get_elem? s.1.fds i)) [
        | inl e ↦ (s, rw (e, check_loop), h)
        | inr (r, e) ↦
            let on : suc i ≤ n = omega (arith, within s.1.fds i r e, h.count) in
            elim (Bool-cases (set r.fd)) [
              | inl b ↦
                  let (t, q, k) =
                    check_loop-Reading handle set n fuel (suc i) (handle r s) keeps (keeps r s h) on
                      (omega arith) in
                  (t, rw (e, check_loop) (rw b q), k)
              | inr b ↦
                  let (t, q, k) =
                    check_loop-Reading handle set n fuel (suc i) s keeps h on (omega arith) in
                  (t, rw (e, check_loop) (rw b q), k)
            ]
      ]

  read-Reading :
      (n : ℕ) (r : FdRegister) (s : W × Manager)
      → ((cb fd : ℕ) (w : W) → Leaving (react cb fd w).1)
      → Reading n s.1
      → Reading n (read_available react r s).1
  unfolding read_available
  read-Reading n r (w, m) leaving h = elim (Option-cases r.cb) [
    | inl e ↦ rw (e, read_available) h
    | inr (c, e) ↦
        rw (e, read_available) (requests-Reading n (react c r.fd w).1 m (leaving c r.fd w) h)
  ]

  round_ready :
      (select : List ℕ → W → Selected) (errors reads : ℕ → Bool) (fuel : ℕ) (w : W) (m : Manager)
      (s t : W × Manager)
      → select (watched m.fds) w ≡ ready errors reads
      → check_loop react (error_available react) errors fuel 0 (w, record m { readout = true })
        ≡ some s
      → check_loop react (read_available react) reads fuel 0 s ≡ some t
      → manager_round react fuel select (w, m)
        ≡ some (
          t.0,
          record t.1 { fds = flush t.1.changes t.1.fds; changes = 0; readout = false },
          true,
        )
  unfolding manager_round
  round_ready select errors reads fuel w m s t a e f = rw (a, manager_round) (rw (e, f))

  -- A round in which `select` reports descriptors, callbacks that register nothing, and more fuel
  -- than there are entries: the round ends and goes on to the next, and after it, as before, every
  -- entry has a callback, no descriptor is there twice, and no change is left to flush out.
  pub manager_round-Idle :
      (select : List ℕ → W → Selected) (errors reads : ℕ → Bool) (fuel : ℕ) (w : W) (m : Manager)
      → Idle m
      → ((cb fd : ℕ) (v : W) → Leaving (react cb fd v).1)
      → select (watched m.fds) w ≡ ready errors reads
      → length m.fds < fuel
      → (w' : W) × (m' : Manager) × (manager_round react fuel select (w, m) ≡ some (w', m', true))
        × Idle m'
  unfolding manager_round
  manager_round-Idle select errors reads fuel w m idle leaving answer lt =
      let n = length m.fds in
      let opened : Reading n (record m { readout = true }) = record {
        covered = omega (arith, idle.all_live);
        distinct = idle.distinct;
        reading = refl;
        count = refl;
      } in
      let (s, e, h) =
        check_loop-Reading (error_available react) errors n fuel 0 (w, record m { readout = true })
          (λ r t k. unregister-Reading n r.fd t.1 k) opened (omega arith) (omega arith) in
      let (t, f, k) =
        check_loop-Reading (read_available react) reads n fuel 0 s
          (λ r u j. read-Reading n r u leaving j) h (omega arith) (omega arith) in
      let cleared = flush-keep t.1.changes t.1.fds k.covered in
      (
        t.0,
        record t.1 { fds = flush t.1.changes t.1.fds; changes = 0; readout = false },
        round_ready select errors reads fuel w m s t answer e f,
        record {
          all_live = rw cleared (dead-keep t.1.fds);
          distinct = rw cleared (keep-Distinct t.1.fds k.distinct);
          no_changes = refl;
          not_reading = refl;
        },
      )
