-- ===== src/Greeter/Seats.antt =====
-- greeter.c: the list of the greeters, one to a seat.
use spawny.Base.{
  ℕ, zero, suc, ◌≡◌, refl, sym, ap, ◌∙◌, true, false, List, [], ◌∷◌, ◌++◌, none, some, Text, arith,
  str_eq, str_eq_iff, Bool-cases, inl, inr, if◌then◌else◌, get_elem?,
}
use spawny.Greeter.{SeatGreeter, greeter_search, greeter_del, greeter_write}

-- No two greeters of one seat.
abbrev pub Distinct : List SeatGreeter → Type 0
Distinct [] = Unit {0}
Distinct (g ∷ gs) = (greeter_search g.seat gs ≡ none) × Distinct gs

pub search_seat :
    (seat : Text) (gs : List SeatGreeter) (g : SeatGreeter)
    → greeter_search seat gs ≡ some g
    → g.seat ≡ seat
unfolding greeter_search
search_seat seat [] g e = cc
search_seat seat (h ∷ gs) g e = elim (Bool-cases (str_eq h.seat seat)) [
  | inl q ↦
      let same : h ≡ g = ground arith in
      ap (λ (x : SeatGreeter). x.seat) (sym same) ∙ (str_eq_iff h.seat seat).0 q
  | inr q ↦ search_seat seat gs g (ground arith)
]

-- Writing to the greeter of a seat adds no seat.
search-write_none :
    (s : Text) (new : SeatGreeter) (gs : List SeatGreeter)
    → greeter_search s gs ≡ none
    → greeter_search s (greeter_write new gs) ≡ none
unfolding greeter_search greeter_write
search-write_none s new [] e = refl
search-write_none s new (g ∷ gs) e =
    let ne : str_eq g.seat s ≡ false = ground arith in
    let rest : greeter_search s gs ≡ none = ground arith in
    elim (Bool-cases (str_eq g.seat new.seat)) [
      | inl q ↦
          let same : g.seat ≡ new.seat = (str_eq_iff g.seat new.seat).0 q in
          let ne' : str_eq new.seat s ≡ false = rw (← same) ne in rw (q, ne') rest
      | inr q ↦ rw (q, ne) (search-write_none s new gs rest)
    ]

write-Distinct :
    (new : SeatGreeter) (gs : List SeatGreeter) → Distinct gs → Distinct (greeter_write new gs)
unfolding greeter_write
write-Distinct new [] d = tt
write-Distinct new (g ∷ gs) d = elim (Bool-cases (str_eq g.seat new.seat)) [
  | inl q ↦ rw q (rw (← (str_eq_iff g.seat new.seat).0 q) d.0, d.1)
  | inr q ↦ rw q (search-write_none g.seat new gs d.0, write-Distinct new gs d.1)
]

search-del_none :
    (s seat : Text) (gs : List SeatGreeter)
    → greeter_search s gs ≡ none
    → greeter_search s (greeter_del seat gs) ≡ none
unfolding greeter_search greeter_del
search-del_none s seat [] e = refl
search-del_none s seat (g ∷ gs) e =
    let ne : str_eq g.seat s ≡ false = ground arith in
    let rest : greeter_search s gs ≡ none = ground arith in
    elim (Bool-cases (str_eq g.seat seat)) [
      | inl q ↦ rw q rest
      | inr q ↦ rw (q, ne) (search-del_none s seat gs rest)
    ]

del-Distinct : (seat : Text) (gs : List SeatGreeter) → Distinct gs → Distinct (greeter_del seat gs)
unfolding greeter_del
del-Distinct seat [] d = tt
del-Distinct seat (g ∷ gs) d = elim (Bool-cases (str_eq g.seat seat)) [
  | inl q ↦ rw q d.1
  | inr q ↦ rw q (search-del_none g.seat seat gs d.0, del-Distinct seat gs d.1)
]

append-Distinct :
    (new : SeatGreeter) (gs : List SeatGreeter)
    → greeter_search new.seat gs ≡ none
    → Distinct gs
    → Distinct (gs ++ new ∷ [])
unfolding greeter_search
append-Distinct new [] e d = (refl, tt)
append-Distinct new (g ∷ gs) e d =
    let ne : str_eq g.seat new.seat ≡ false = ground arith in
    (behind g gs ne d.0, append-Distinct new gs (ground arith) d.1)
  where
    other : (g : SeatGreeter) → str_eq g.seat new.seat ≡ false → str_eq new.seat g.seat ≡ false
    other g ne = elim (Bool-cases (str_eq new.seat g.seat)) [
      | inr q ↦ q
      | inl q ↦
          let same : str_eq g.seat new.seat ≡ true =
            (str_eq_iff g.seat new.seat).1 (sym ((str_eq_iff new.seat g.seat).0 q)) in
          cc
    ]

    behind :
        (g : SeatGreeter) (gs : List SeatGreeter)
        → str_eq g.seat new.seat ≡ false
        → greeter_search g.seat gs ≡ none
        → greeter_search g.seat (gs ++ new ∷ []) ≡ none
    behind g [] ne e = rw (other g ne)
    behind g (h ∷ gs) ne e =
        let away : str_eq h.seat g.seat ≡ false = ground arith in
        rw away (behind g gs ne (ground arith))

-- In a list with one greeter to a seat, the greeter that is taken off is not found any more, and
-- those of the other seats are.
pub search-del :
    (seat s : Text) (gs : List SeatGreeter)
    → Distinct gs
    → greeter_search s (greeter_del seat gs) ≡ (if str_eq seat s then none else greeter_search s gs)
unfolding greeter_search greeter_del
search-del seat s [] d = elim (Bool-cases (str_eq seat s)) [ inl q ↦ rw q | inr q ↦ rw q ]
search-del seat s (g ∷ gs) d = elim (Bool-cases (str_eq g.seat seat)) [
  | inl q ↦
      let same : g.seat ≡ seat = (str_eq_iff g.seat seat).0 q in
      elim (Bool-cases (str_eq seat s)) [
        | inl r ↦
            let here : seat ≡ s = (str_eq_iff seat s).0 r in rw (q, r) (rw (← here, ← same) d.0)
        | inr r ↦ rw (q, r, same, r)
      ]
  | inr q ↦ elim (Bool-cases (str_eq g.seat s)) [
    | inl r ↦
        let here : g.seat ≡ s = (str_eq_iff g.seat s).0 r in
        let away : str_eq seat s ≡ false = elim (Bool-cases (str_eq seat s)) [
          | inr z ↦ z
          | inl z ↦
              let back : str_eq g.seat seat ≡ true =
                (str_eq_iff g.seat seat).1 (here ∙ sym ((str_eq_iff seat s).0 z)) in
              cc
        ] in
        rw (q, r, away)
    | inr r ↦ rw (q, r) (search-del seat s gs d.1)
  ]
]

found_apart :
    (s : Text) (gs : List SeatGreeter) (i : ℕ) (g : SeatGreeter)
    → greeter_search s gs ≡ none
    → get_elem? gs i ≡ some g
    → str_eq g.seat s ≡ false
unfolding greeter_search
found_apart s [] i g e at = cc
found_apart s (h ∷ gs) zero g e at = let same : h ≡ g = ground arith in rw (← same) (ground arith)
found_apart s (h ∷ gs) (suc i) g e at = found_apart s gs i g (ground arith) at

-- A write to the greeter of a seat is read at its place.
pub get_elem?-greeter_write :
    (new : SeatGreeter) (gs : List SeatGreeter) (i : ℕ) (g : SeatGreeter)
    → Distinct gs
    → get_elem? gs i ≡ some g
    → g.seat ≡ new.seat
    → get_elem? (greeter_write new gs) i ≡ some new
unfolding greeter_write
get_elem?-greeter_write new [] i g d at same = cc
get_elem?-greeter_write new (h ∷ gs) zero g d at same =
    let here : h ≡ g = ground arith in
    let q : str_eq h.seat new.seat ≡ true = (str_eq_iff h.seat new.seat).1 (rw here same) in
    rw q refl
get_elem?-greeter_write new (h ∷ gs) (suc i) g d at same =
    elim (Bool-cases (str_eq h.seat new.seat)) [
      | inl q ↦
          let both : g.seat ≡ h.seat = same ∙ sym ((str_eq_iff h.seat new.seat).0 q) in
          let yes : str_eq g.seat h.seat ≡ true = (str_eq_iff g.seat h.seat).1 both in
          let no = found_apart h.seat gs i g d.0 at in absurd (ground (arith, yes, no))
      | inr q ↦ rw q (get_elem?-greeter_write new gs i g d.1 at same)
    ]
