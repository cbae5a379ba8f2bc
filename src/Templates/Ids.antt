-- ===== src/Templates/Ids.antt =====
-- templatereg.c: the ids that a registration prints, and the buffer for them.
use spawny.Base.{
  ℕ, zero, suc, ◌+◌, ◌-◌, ◌^◌, ◌≤◌, ◌<◌, ◌≡◌, ◌↔◌, ap, sym, ◌∙◌, false, some, [], ◌∷◌, arith, Text,
  decimal, length-decimal, decimal-injective, decimal_head, length-decimal_zero, take, length, ltb,
  ◌==◌, Bool-cases, inl, inr, take-append, append-nil,
}
use spawny.Templates.{print_int, int_digits, int_length, id_text}

-- What is used of libm: the integer part of the logarithm.
abbrev pub IsLog : (ℕ → ℕ) → Type 0
IsLog log10 = (n : ℕ) → 0 < n → (10 ^ log10 n ≤ n) × (n < 10 ^ suc (log10 n))

take_exact : (xs : Text) (n : ℕ) → length xs ≡ n → take n xs ≡ xs
take_exact xs n h = rw (← h) (ap (take (length xs)) (sym (append-nil xs)) ∙ take-append xs [])

module _ (log10 : ℕ → ℕ) (law : IsLog log10) where
  length-decimal_log : (n : ℕ) → 0 < n → length (decimal n) ≡ log10 n + 1
  length-decimal_log n h = length-decimal n (log10 n) (law n h).0 (law n h).1 ∙ omega arith

  length-print_int : (v : ℕ) → v < 2 ^ 32 → length (print_int v) ≡ int_digits log10 v
  unfolding print_int int_digits
  length-print_int zero h = length-decimal_zero
  length-print_int (suc v) h =
      let nonzero : (suc v == 0) ≡ false = ground arith in
      elim (Bool-cases (ltb (suc v) (2 ^ 31))) [
        | inl e ↦ rw (nonzero, e) (length-decimal_log (suc v) (omega arith))
        | inr e ↦ rw (nonzero, e) (omega (arith, length-decimal_log (2 ^ 32 - suc v) (omega arith)))
      ]

  -- With a logarithm as documented, `snprintf` cuts the id of no counter below 2 ^ 32: the array
  -- of `INT_LENGTH + 2` bytes holds it with its NUL.
  pub id_text_whole :
      (counter : ℕ) → counter < 2 ^ 32 → id_text log10 counter ≡ b't' ∷ print_int counter
  unfolding id_text spawny.Templates.print_id
  id_text_whole counter h =
      take_exact (b't' ∷ print_int counter) _ (omega (arith, length-print_int counter h))

  -- Where it is defined, the length of the array is that of the id.
  pub int_length-defined :
      (v : ℕ) → (v == 2 ^ 31) ≡ false → int_length log10 v ≡ some (int_digits log10 v)
  unfolding int_length
  int_length-defined v h = rw h

  no_sign : (n : ℕ) (cs : Text) → decimal n ≡ b'-' ∷ cs → ⊥
  no_sign n cs e = let (c, ds, q, le) = decimal_head n in ground arith

  print_int-injective : (m n : ℕ) → m < 2 ^ 32 → n < 2 ^ 32 → print_int m ≡ print_int n → m ≡ n
  unfolding print_int
  print_int-injective m n hm hn e = elim (Bool-cases (ltb m (2 ^ 31))) [
    | inl p ↦ elim (Bool-cases (ltb n (2 ^ 31))) [
      | inl q ↦ decimal-injective m n (ground arith)
      | inr q ↦ absurd (no_sign m (decimal (2 ^ 32 - n)) (ground arith))
    ]
    | inr p ↦ elim (Bool-cases (ltb n (2 ^ 31))) [
      | inl q ↦ absurd (no_sign n (decimal (2 ^ 32 - m)) (ground arith))
      | inr q ↦ omega (arith, decimal-injective (2 ^ 32 - m) (2 ^ 32 - n) (ground arith))
    ]
  ]

  pub id_text-injective :
      (m n : ℕ) → m < 2 ^ 32 → n < 2 ^ 32 → id_text log10 m ≡ id_text log10 n → m ≡ n
  id_text-injective m n hm hn e =
      print_int-injective m n hm hn (ground (arith, id_text_whole m hm, id_text_whole n hn))

  -- With a logarithm as documented, two counters below 2 ^ 32 give the same id exactly if they are
  -- equal.
  pub id_text_iff :
      (m n : ℕ) → m < 2 ^ 32 → n < 2 ^ 32 → (id_text log10 m ≡ id_text log10 n) ↔ (m ≡ n)
  id_text_iff m n hm hn = (id_text-injective m n hm hn, λ e. ap (id_text log10) e)
