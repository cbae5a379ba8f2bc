-- ===== src/Client/Fill.antt =====
-- client.c: the conversion of one array by `_fill_array`.
use spawny.Base.{
  ℕ, zero, suc, ◌+◌, ◌≡◌, refl, List, [], ◌∷◌, map, Option, some, arith, get_elem?, ◌>>=◌,
  Option-cases, inl, inr,
}
use spawny.Client.{resize, convert_loop, fill_array}

module _ {ℓ κ} {T : Type ℓ} {P : Type κ} (ff : T → T) (zeroed : T) (cf : P → T → ℕ → Option T) where
  -- The conversion of all elements, each from the zeroed one.
  unfoldable pub converted : ℕ → List P → Option (List T)
  converted i [] = some []
  converted i (p ∷ ps) = cf p zeroed i >>= λ t. converted (i + 1) ps >>= λ rest. some (t ∷ rest)

  module _ (forgets : (p : P) (t : T) (i : ℕ) → cf p (ff t) i ≡ cf p zeroed i) where
    convert_loop-resize :
        (i : ℕ) (array : List T) (ps : List P)
        → convert_loop ff zeroed cf i ps (resize ff zeroed cf (map ff array) ps) ≡ converted i ps
    unfolding convert_loop resize converted
    convert_loop-resize i array [] = refl
    convert_loop-resize i [] (p ∷ ps) = rw (convert_loop-resize (i + 1) [] ps)
    convert_loop-resize i (t ∷ array) (p ∷ ps) =
        rw (forgets p t i, convert_loop-resize (i + 1) array ps)

    pub fill_array-converted :
        (array : List T) (ps : List P) → fill_array ff zeroed cf array ps ≡ converted 0 ps
    unfolding fill_array
    fill_array-converted array ps = convert_loop-resize 0 array ps

  -- Element number `j` of the result is converted from element number `j` of the data.
  pub converted-get_elem? :
      (i j : ℕ) (ps : List P) (ts : List T)
      → converted i ps ≡ some ts
      → (get_elem? ps j >>= λ p. cf p zeroed (i + j)) ≡ get_elem? ts j
  unfolding converted
  converted-get_elem? i j [] ts e = let q : [] ≡ ts = ground arith in rw (← q) refl
  converted-get_elem? i j (p ∷ ps) ts e = elim (Option-cases (cf p zeroed i)) [
    | inl n ↦ absurd (ground (arith, n))
    | inr (t, f) ↦ elim (Option-cases (converted (i + 1) ps)) [
      | inl n ↦ absurd (ground (arith, n))
      | inr (us, g) ↦ at j t us f (λ k. converted-get_elem? (i + 1) k ps us g) (ground arith)
    ]
  ]
    where
      at :
          (j : ℕ) (t : T) (us : List T)
          → cf p zeroed i ≡ some t
          → ((k : ℕ) → (get_elem? ps k >>= λ p. cf p zeroed ((i + 1) + k)) ≡ get_elem? us k)
          → t ∷ us ≡ ts
          → (get_elem? (p ∷ ps) j >>= λ p. cf p zeroed (i + j)) ≡ get_elem? ts j
      at zero t us f g q = let z : i + 0 ≡ i = omega arith in rw (← q, z) f
      at (suc j) t us f g q = let z : i + suc j ≡ (i + 1) + j = omega arith in rw (← q, z) (g j)
