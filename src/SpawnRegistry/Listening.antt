-- ===== src/SpawnRegistry/Listening.antt =====
-- spawnregistery.c: whether an entry of a listener is there, and the entries of the others.
use spawny.Base.{
  ℕ, ◌≡◌, refl, ◌∙◌, Bool, true, false, not, ◌&&◌, ◌||◌, List, [], ◌∷◌, ◌++◌, some, arith, ◌==◌,
  keep, Bool-cases, inl, inr,
}
use spawny.SpawnRegistry.{Waiting, Registry, matches, zero_matching, listen, unlisten}
use spawny.SpawnRegistry.Cleanup.{has_handler, cleanup_all_lem}

module _ (pid handler ptr : ℕ) where
  unfoldable pub listens : List Waiting → Bool
  listens [] = false
  listens (w ∷ ws) = matches pid handler ptr w || listens ws

  -- The entries with a handler that are not the listener's.
  abbrev pub strangers : List Waiting → List Waiting
  strangers = keep (λ w. has_handler w && not (matches pid handler ptr w))

  strangers-zero_matching :
      (ws : List Waiting) → strangers (zero_matching pid handler ptr ws) ≡ strangers ws
  unfolding zero_matching
  strangers-zero_matching [] = refl
  strangers-zero_matching (w ∷ ws) = ground (arith, strangers-zero_matching ws)

  pub strangers-keep : (ws : List Waiting) → strangers (keep has_handler ws) ≡ strangers ws
  strangers-keep [] = refl
  strangers-keep (w ∷ ws) = ground (arith, strangers-keep ws)

  listens-zero_matching :
      (ws : List Waiting)
      → (handler == 0) ≡ false
      → listens (zero_matching pid handler ptr ws) ≡ false
  unfolding zero_matching listens
  listens-zero_matching [] h = refl
  listens-zero_matching (w ∷ ws) h = ground (arith, listens-zero_matching ws)

  pub listens-keep :
      (ws : List Waiting) → (handler == 0) ≡ false → listens (keep has_handler ws) ≡ listens ws
  unfolding listens
  listens-keep [] h = refl
  listens-keep (w ∷ ws) h = ground (arith, listens-keep ws)

  -- In an evaluation or not: after `unlisten`, which ends, the listener has no entry, and the others
  -- have theirs.
  pub unlisten-listens :
      (r : Registry)
      → (handler == 0) ≡ false
      → (r' : Registry) × (unlisten pid handler ptr r ≡ some r')
        × (listens r'.pending_process ≡ false)
        × (strangers r'.pending_process ≡ strangers r.pending_process)
  unfolding unlisten
  unlisten-listens r h =
      let ws = zero_matching pid handler ptr r.pending_process in
      elim (Bool-cases r.eval_mode) [
        | inl q ↦ (
          record r { pending_process = ws },
          rw q,
          listens-zero_matching r.pending_process h,
          strangers-zero_matching r.pending_process,
        )
        | inr q ↦ (
          record r { pending_process = keep has_handler ws },
          rw (q, cleanup_all_lem ws),
          listens-keep ws h ∙ listens-zero_matching r.pending_process h,
          strangers-keep ws ∙ strangers-zero_matching r.pending_process,
        )
      ]

  listens-added :
      (ws : List Waiting)
      → listens (ws ++ record { pid = pid; handler = handler; data_ptr = ptr } ∷ []) ≡ true
  unfolding listens
  listens-added [] = ground arith
  listens-added (w ∷ ws) = ground (arith, listens-added ws)

  strangers-added :
      (ws : List Waiting)
      → strangers (ws ++ record { pid = pid; handler = handler; data_ptr = ptr } ∷ [])
        ≡ strangers ws
  strangers-added [] = ground arith
  strangers-added (w ∷ ws) = ground (arith, strangers-added ws)

  -- After `listen` the listener has an entry, and the others have theirs.
  pub listen-listens :
      (r : Registry)
      → (listens (listen pid handler ptr r).pending_process ≡ true)
        × (strangers (listen pid handler ptr r).pending_process ≡ strangers r.pending_process)
  unfolding listen
  listen-listens r = (listens-added r.pending_process, strangers-added r.pending_process)
