-- ===== src/Spawn/Tty.antt =====
-- spawnservice.c: `_vt_used` and `available_tty` with the static `tty_counter`.
use spawny.Base.{
  ℕ, zero, suc, ◌+◌, ◌≤◌, ◌<◌, ◌≡◌, refl, Bool, true, false, ◌||◌, List, [], ◌∷◌, Option, none,
  some, ◌==◌, ltb, arith, if◌then◌else◌, Bool-cases, inl, inr,
}

abbrev pub last_tty : ℕ
last_tty = 63

abbrev pub first_tty : ℕ
first_tty = 10

-- `_vt_used`: the sessions of the seat, each with its terminal; `none` is the -1 of no terminal.
unfoldable pub vt_used : List (Option ℕ) → ℕ → Bool
vt_used [] vtnr = false
vt_used (none ∷ sessions) vtnr = vt_used sessions vtnr
vt_used (some vt ∷ sessions) vtnr = vtnr == vt || vt_used sessions vtnr

-- The loop of `available_tty`, with fuel: the counter after it, and the number in the name of the
-- device. The outer `none` says that the fuel ran out.
unfoldable pub tty_loop : ℕ → List (Option ℕ) → ℕ → Option (ℕ × Option ℕ)
tty_loop zero sessions counter = none
tty_loop (suc fuel) sessions counter =
    let again = tty_loop fuel sessions (counter + 1) in
    if ltb last_tty counter
    then some (counter, none)
    else if vt_used sessions (counter + 1)
    then again
    else some (counter + 1, some (counter + 1))

-- One round for each number up to the last, and two at its end.
unfoldable pub available_tty : List (Option ℕ) → ℕ → Option (ℕ × Option ℕ)
unfolding tty_loop
available_tty sessions counter = tty_loop 65 sessions counter

-- What the search gives: the next free number, or no number when all up to the last are used.
abbrev pub Searched : List (Option ℕ) → ℕ → ℕ × Option ℕ → Type 0
Searched sessions counter (after, none) =
    (counter ≤ after)
    × (last_tty < after)
    × ((n : ℕ) → counter < n → n ≤ after → vt_used sessions n ≡ true)
Searched sessions counter (after, some tty) =
    (after ≡ tty)
    × (counter < tty)
    × (tty ≤ last_tty + 1)
    × (vt_used sessions tty ≡ false)
    × ((n : ℕ) → counter < n → n < tty → vt_used sessions n ≡ true)

next_used :
    (sessions : List (Option ℕ)) (counter n : ℕ)
    → vt_used sessions (counter + 1) ≡ true
    → counter < n
    → (counter + 1 < n → vt_used sessions n ≡ true)
    → vt_used sessions n ≡ true
next_used sessions counter n used lo far = elim (Bool-cases (n == counter + 1)) [
  | inl here ↦ let same : n ≡ counter + 1 = ground arith in rw same used
  | inr there ↦ far (ground arith)
]

Searched-next :
    (sessions : List (Option ℕ)) (counter : ℕ) (r : ℕ × Option ℕ)
    → vt_used sessions (counter + 1) ≡ true
    → Searched sessions (counter + 1) r
    → Searched sessions counter r
Searched-next sessions counter (after, none) used (a, b, all) =
    (omega arith, b, λ n lo hi. next_used sessions counter n used lo (λ far. all n far hi))
Searched-next sessions counter (after, some tty) used (a, b, c, d, all) =
    (a, omega arith, c, d, λ n lo hi. next_used sessions counter n used lo (λ far. all n far hi))

tty_loop-Searched :
    (fuel : ℕ) (sessions : List (Option ℕ)) (counter : ℕ)
    → last_tty + 2 ≤ fuel + counter
    → counter ≤ last_tty + 1
    → (r : ℕ × Option ℕ) × (tty_loop fuel sessions counter ≡ some r) × Searched sessions counter r
unfolding tty_loop
tty_loop-Searched zero sessions counter f le = absurd (omega arith)
tty_loop-Searched (suc fuel) sessions counter f le = elim (Bool-cases (ltb last_tty counter)) [
  | inl over ↦
      ((counter, none), rw over, (omega arith, ground arith, λ n lo hi. absurd (omega arith)))
  | inr room ↦ elim (Bool-cases (vt_used sessions (counter + 1))) [
    | inl used ↦
        let (r, e, s) =
          tty_loop-Searched fuel sessions (counter + 1) (omega arith) (ground arith) in
        (r, rw (room, used) e, Searched-next sessions counter r used s)
    | inr free ↦ (
      (counter + 1, some (counter + 1)),
      rw (room, free),
      (refl, omega arith, ground arith, free, λ n lo hi. absurd (omega arith)),
    )
  ]
]

-- From any value of the counter up to 64, the search ends: it gives the next number above the
-- counter that no session of the seat uses, at most 64, or nothing when all of them are used.
pub available_tty-Searched :
    (sessions : List (Option ℕ)) (counter : ℕ)
    → counter ≤ last_tty + 1
    → (r : ℕ × Option ℕ) × (available_tty sessions counter ≡ some r) × Searched sessions counter r
unfolding available_tty
available_tty-Searched sessions counter le = tty_loop-Searched 65 sessions counter (omega arith) le

-- Once the counter has passed the last terminal nothing is found any more, whatever is free, and
-- the counter stays.
pub available_tty_exhausted :
    (sessions : List (Option ℕ)) (counter : ℕ)
    → last_tty < counter
    → available_tty sessions counter ≡ some (counter, none)
unfolding available_tty
available_tty_exhausted sessions counter over =
    let e : ltb last_tty counter ≡ true = ground arith in rw (e, tty_loop)
