-- ===== src/Templates/Find.antt =====
-- templatereg.c: what `find_temp` finds among the ids that were given out.
use mathlib.Core.Option
use spawny.Base.{
  ℕ, zero, suc, ◌+◌, ◌^◌, ◌≤◌, ◌<◌, ◌≡◌, ◌≢◌, refl, ap, ◌∙◌, ◌⊎◌, false, List, [], ◌∷◌, ◌++◌, arith,
  Text, Option, none, some, str_eq, str_eq_iff, str_eq_refl, length, get_elem?, delete_at,
  Bool-cases, Option-cases, if◌then◌else◌, inl, inr,
}
use spawny.Templates.{Template, Registry, Details, details, find_temp, id_text}
use spawny.Templates.Ids.{IsLog, id_text-injective}

not_head :
    (t s : Template) (ts : List Template)
    → find_temp t.id (s ∷ ts) ≡ none
    → str_eq t.id s.id ≡ false
unfolding find_temp
not_head t s ts h = ground arith

module _ (log10 : ℕ → ℕ) (law : IsLog log10) where
  -- The ids of the list were given out by rising counters from `lo` on and below `hi`.
  abbrev pub Issued : ℕ → ℕ → List Template → Type 0
  Issued lo hi [] = lo ≤ hi
  Issued lo hi (t ∷ ts) = (k : ℕ) × (lo ≤ k) × (t.id ≡ id_text log10 k) × Issued (k + 1) hi ts

  abbrev pub IsValid : Registry → Type 0
  IsValid r = elim r.array [ none ↦ Unit {0} | some ts ↦ Issued 0 r.counter ts ]

  Issued-le : (lo hi : ℕ) (ts : List Template) → Issued lo hi ts → lo ≤ hi
  Issued-le lo hi [] h = h
  Issued-le lo hi (t ∷ ts) (k, le, e, h) = omega (arith, Issued-le (k + 1) hi ts h)

  Issued-mono : (lo lo' hi : ℕ) (ts : List Template) → lo' ≤ lo → Issued lo hi ts → Issued lo' hi ts
  Issued-mono lo lo' hi [] le h = omega arith
  Issued-mono lo lo' hi (t ∷ ts) le (k, le', e, h) = (k, omega arith, e, h)

  pub Issued-append :
      (lo hi : ℕ) (ts : List Template) (t : Template)
      → t.id ≡ id_text log10 hi
      → Issued lo hi ts
      → Issued lo (hi + 1) (ts ++ t ∷ [])
  Issued-append lo hi [] t e h = (hi, h, e, omega arith)
  Issued-append lo hi (s ∷ ts) t e (k, le, e', h) = (k, le, e', Issued-append (k + 1) hi ts t e h)

  id_differs :
      (j k : ℕ) (t : Template)
      → j < 2 ^ 32
      → k < 2 ^ 32
      → t.id ≡ id_text log10 k
      → j ≢ k
      → str_eq (id_text log10 j) t.id ≡ false
  id_differs j k t fj fk e ne = elim (Bool-cases (str_eq (id_text log10 j) t.id)) [
    | inl q ↦
        absurd
          (ne (id_text-injective log10 law j k fj fk ((str_eq_iff (id_text log10 j) t.id).0 q ∙ e)))
    | inr q ↦ q
  ]

  -- An id that is not given out is not found.
  pub find_temp_fresh :
      (j lo hi : ℕ) (ts : List Template)
      → hi < 2 ^ 32
      → Issued lo hi ts
      → (j < lo) ⊎ (hi ≤ j)
      → j < 2 ^ 32
      → find_temp (id_text log10 j) ts ≡ none
  unfolding find_temp
  find_temp_fresh j lo hi [] fits h out fj = refl
  find_temp_fresh j lo hi (t ∷ ts) fits (k, le, e, h) out fj =
      let bound = Issued-le (k + 1) hi ts h in
      let differ : str_eq (id_text log10 j) t.id ≡ false =
        id_differs j k t fj (omega arith) e (ground arith) in
      rw differ (ap (Option.map _) (find_temp_fresh j (k + 1) hi ts fits h (ground arith) fj))

  find_temp-append :
      (id : Text) (ts : List Template) (t : Template)
      → find_temp id ts ≡ none
      → find_temp id (ts ++ t ∷ []) ≡ (if str_eq id t.id then some (length ts, t) else none)
  unfolding find_temp
  find_temp-append id [] t h = refl
  find_temp-append id (s ∷ ts) t h = ground (arith, find_temp-append id ts t)

  -- No template behind one has its id.
  absent_behind :
      (k hi : ℕ) (t : Template) (ts : List Template)
      → hi < 2 ^ 32
      → t.id ≡ id_text log10 k
      → Issued (k + 1) hi ts
      → find_temp t.id ts ≡ none
  absent_behind k hi t ts fits e h =
      let bound = Issued-le (k + 1) hi ts h in
      rw e (find_temp_fresh k (k + 1) hi ts fits h (inl (omega arith)) (omega arith))

  -- Each template is the one that its id finds.
  pub find_temp-get_elem? :
      (lo hi i : ℕ) (ts : List Template) (t : Template)
      → hi < 2 ^ 32
      → Issued lo hi ts
      → get_elem? ts i ≡ some t
      → find_temp t.id ts ≡ some (i, t)
  unfolding find_temp
  find_temp-get_elem? lo hi i [] t fits h e = cc
  find_temp-get_elem? lo hi zero (s ∷ ts) t fits (k, le, q, h) e =
      let same : s ≡ t = ground arith in rw (← same, str_eq_refl s.id)
  find_temp-get_elem? lo hi (suc i) (s ∷ ts) t fits (k, le, q, h) e =
      let ih = find_temp-get_elem? (k + 1) hi i ts t fits h e in
      let out = absent_behind k hi s ts fits q h in ground (arith, ih, out, str_eq_iff t.id s.id)

  find_temp-found :
      (id : Text) (ts : List Template) (i : ℕ) (t : Template)
      → find_temp id ts ≡ some (i, t)
      → t.id ≡ id
  unfolding find_temp
  find_temp-found id [] i t e = cc
  find_temp-found id (s ∷ ts) i t e = elim (Bool-cases (str_eq id s.id)) [
    | inl q ↦ ground (arith, str_eq_iff id s.id)
    | inr q ↦ elim (Option-cases (find_temp id ts)) [
      | inl none_left ↦ ground arith
      | inr ((j, u), found) ↦ ground (arith, find_temp-found id ts j u found)
    ]
  ]

  abbrev pub found_details : Text → List Template → Option Details
  found_details id ts = Option.map (λ f. details f.1) (find_temp id ts)

  found_details_step :
      (id : Text) (s : Template) (ts : List Template)
      → found_details id (s ∷ ts)
        ≡ (if str_eq id s.id then some (details s) else found_details id ts)
  unfolding find_temp
  found_details_step id s ts = elim (Option-cases (find_temp id ts)) [
    | inl e ↦ ground arith
    | inr ((i, t), e) ↦ ground arith
  ]

  found_details-cons :
      (id : Text) (s : Template) (ts us : List Template)
      → found_details id ts ≡ found_details id us
      → found_details id (s ∷ ts) ≡ found_details id (s ∷ us)
  found_details-cons id s ts us h =
      ground (arith, found_details_step id s ts, found_details_step id s us)

  -- Taking out the template that `find_temp` found: its id is gone, the others are found as before.
  pub find_temp-delete_at :
      (lo hi : ℕ) (id : Text) (ts : List Template) (i : ℕ) (t : Template)
      → hi < 2 ^ 32
      → Issued lo hi ts
      → find_temp id ts ≡ some (i, t)
      → (find_temp id (delete_at i ts) ≡ none)
        × Issued lo hi (delete_at i ts)
        × ((other : Text)
            → str_eq other id ≡ false
            → found_details other (delete_at i ts) ≡ found_details other ts)
  unfolding find_temp
  find_temp-delete_at lo hi id [] i t fits h e = cc
  find_temp-delete_at lo hi id (s ∷ ts) i t fits (k, le, q, h) e =
      elim (Bool-cases (str_eq id s.id)) [
        | inl hit ↦
            let first : i ≡ zero = ground arith in
            let own : id ≡ s.id = (str_eq_iff id s.id).0 hit in
            rw first (
              rw own (absent_behind k hi s ts fits q h),
              Issued-mono (k + 1) lo hi ts (omega arith) h,
              λ other ne. ground arith,
            )
        | inr miss ↦ elim (Option-cases (find_temp id ts)) [
          | inl none_left ↦ absurd (ground arith)
          | inr ((j, u), found) ↦
              let later : i ≡ suc j = ground arith in
              let (gone, issued, kept) = find_temp-delete_at (k + 1) hi id ts j u fits h found in
              rw later (
                ground arith,
                (k, le, q, issued),
                λ other ne.
                    let rest = kept other ne in found_details-cons other s (delete_at j ts) ts rest,
              )
        ]
      ]

  pub found_details-append :
      (id : Text) (ts : List Template) (t : Template)
      → find_temp t.id ts ≡ none
      → found_details id (ts ++ t ∷ [])
        ≡ (if str_eq id t.id then some (details t) else found_details id ts)
  found_details-append id [] t h = found_details_step id t []
  found_details-append id (s ∷ ts) t h = ground (
    arith,
    found_details_step id s ts,
    found_details_step id s (ts ++ t ∷ []),
    found_details-append id ts t (unfold find_temp in ground arith),
    str_eq_iff id t.id,
    str_eq_iff id s.id,
    not_head t s ts h,
  )
