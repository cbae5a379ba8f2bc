-- ===== src/SpawnRegistry/Cleanup.antt =====
-- spawnregistery.c: cleaning up, and leaving the registry.
use spawny.Base.{
  ℕ, zero, suc, ◌+◌, ◌<◌, ◌≡◌, refl, ap, sym, ◌∙◌, Bool, true, false, ◌&&◌, not, List, [], ◌∷◌,
  some, ◌==◌, arith, length, keep, Bool-cases, inl, inr,
}
use spawny.SpawnRegistry.{
  Waiting, Registry, cleanup_step, cleanup, cleanup_all, matches, zero_matching, unlisten,
}

abbrev pub has_handler : Waiting → Bool
has_handler w = not (w.handler == 0)

keep_step : (ws : List Waiting) → keep has_handler (cleanup_step ws).0 ≡ keep has_handler ws
unfolding cleanup_step
keep_step [] = refl
keep_step (w ∷ ws) = ground (arith, keep_step ws)

step_done : (ws : List Waiting) → (cleanup_step ws).1 ≡ false → keep has_handler ws ≡ ws
unfolding cleanup_step
step_done [] h = refl
step_done (w ∷ ws) h = ground (arith, step_done ws)

step_shorter :
    (ws : List Waiting) → (cleanup_step ws).1 ≡ true → length (cleanup_step ws).0 + 1 ≡ length ws
unfolding cleanup_step
step_shorter [] h = cc
step_shorter (w ∷ ws) h = ground (arith, step_shorter ws)

cleanup_lem :
    (fuel : ℕ) (ws : List Waiting) → length ws < fuel → cleanup fuel ws ≡ some (keep has_handler ws)
unfolding cleanup
cleanup_lem zero ws h = elim h [ ]
cleanup_lem (suc fuel) ws h = elim (Bool-cases (cleanup_step ws).1) [
  | inl e ↦
      rw (e, cleanup)
        (cleanup_lem fuel (cleanup_step ws).0 (omega (arith, step_shorter ws e))
          ∙ ap some (keep_step ws))
  | inr e ↦ rw (e, cleanup) (ap some (sym (step_done ws e)))
]

-- Cleaning up ends within one round more than there are entries, and leaves exactly the entries
-- with a handler, in their order.
pub cleanup_all_lem : (ws : List Waiting) → cleanup_all ws ≡ some (keep has_handler ws)
unfolding cleanup_all
cleanup_all_lem ws = cleanup_lem (suc (length ws)) ws (omega arith)

keep-zero_matching :
    (pid handler ptr : ℕ) (ws : List Waiting)
    → keep has_handler (zero_matching pid handler ptr ws)
      ≡ keep (λ w. has_handler w && not (matches pid handler ptr w)) ws
unfolding zero_matching
keep-zero_matching pid handler ptr [] = refl
keep-zero_matching pid handler ptr (w ∷ ws) = ground (arith, keep-zero_matching pid handler ptr ws)

-- Outside of an evaluation `unlisten` ends, and leaves the entries with a handler that do not
-- match, in order.
pub unlisten_lem :
    (pid handler ptr : ℕ) (r : Registry)
    → r.eval_mode ≡ false
    → unlisten pid handler ptr r
      ≡ some (record r {
        pending_process =
            keep (λ w. has_handler w && not (matches pid handler ptr w)) r.pending_process;
      })
unfolding unlisten
unlisten_lem pid handler ptr r h = rw (
  h,
  cleanup_all_lem (zero_matching pid handler ptr r.pending_process),
  keep-zero_matching pid handler ptr r.pending_process,
)
