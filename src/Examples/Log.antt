-- ===== src/Examples/Log.antt =====
-- A decimal logarithm, for the ids of templatereg.c.
use native.Mathlib.Nat.{pow-suc}
use spawny.Base.{ℕ, zero, suc, ◌/◌, ◌^◌, ◌≤◌, ◌<◌, arith, ltb, if◌then◌else◌, Bool-cases, inl, inr}
use spawny.Templates.Ids.{IsLog}

unfoldable log_loop : ℕ → ℕ → ℕ
log_loop zero n = 0
log_loop (suc fuel) n = let rest = log_loop fuel (n / 10) in if ltb n 10 then 0 else suc rest

unfoldable pub log10 : ℕ → ℕ
unfolding log_loop
log10 n = log_loop n n

log_loop_lem :
    (fuel n : ℕ) → 0 < n → n ≤ fuel → (10 ^ log_loop fuel n ≤ n) × (n < 10 ^ suc (log_loop fuel n))
unfolding log_loop
log_loop_lem zero n pos le = absurd (omega arith)
log_loop_lem (suc fuel) n pos le = elim (Bool-cases (ltb n 10)) [
  | inl e ↦ rw e (ground arith, ground arith)
  | inr e ↦
      let big : 10 ≤ n = ground arith in
      let (lo, hi) = log_loop_lem fuel (n / 10) (omega arith) (omega arith) in
      let p = pow-suc 10 (log_loop fuel (n / 10)) in
      let q = pow-suc 10 (suc (log_loop fuel (n / 10))) in
      rw e (omega (arith, lo, p), omega (arith, hi, q))
]

pub log10-IsLog : IsLog log10
unfolding log10
log10-IsLog n h = log_loop_lem n n h (omega arith)
