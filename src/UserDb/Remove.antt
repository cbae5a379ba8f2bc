-- ===== src/UserDb/Remove.antt =====
-- user_db.c: what `_user_pair_remove` leaves of the pairs.
use spawny.Base.{
  suc, ◌+◌, ◌-◌, ◌≡◌, refl, ap, true, false, List, [], ◌∷◌, ◌++◌, Text, str_eq, arith, length, take,
  All, length-append, take-add, ◌∙◌,
}
use spawny.UserDb.{Pair, User, shift_down, remove_loop, user_pair_remove}

-- No pair of the list has that name.
abbrev pub Absent : Text → List Pair → Type 0
Absent name = All (λ p. str_eq p.name name ≡ false)

length-shift_down : (past : Pair) (ps : List Pair) → length (shift_down past ps) ≡ length ps
unfolding shift_down
length-shift_down past [] = refl
length-shift_down past (p ∷ []) = refl
length-shift_down past (p ∷ (q ∷ ps)) = ap suc (length-shift_down past (q ∷ ps))

-- All but the last of the shifted pairs are the old ones behind the first.
take-shift_down :
    (past p : Pair) (ps : List Pair) → take (length ps) (shift_down past (p ∷ ps)) ≡ ps
unfolding shift_down
take-shift_down past p [] = refl
take-shift_down past p (q ∷ ps) = ap (◌∷◌ q) (take-shift_down past q ps)

remove_loop-Absent :
    (past : Pair) (name : Text) (ps : List Pair)
    → Absent name ps
    → remove_loop past name ps ≡ (ps, false)
unfolding remove_loop
remove_loop-Absent past name [] h = refl
remove_loop-Absent past name (p ∷ ps) h = rw (h.0, remove_loop-Absent past name ps h.1)

remove_loop_hit :
    (past : Pair) (name : Text) (before : List Pair) (p : Pair) (behind : List Pair)
    → Absent name before
    → str_eq p.name name ≡ true
    → remove_loop past name (before ++ p ∷ behind) ≡ (before ++ p ∷ shift_down past behind, true)
unfolding remove_loop
remove_loop_hit past name [] p behind h e = rw e
remove_loop_hit past name (q ∷ before) p behind h e =
    rw (h.0, remove_loop_hit past name before p behind h.1 e)

-- Where no pair has the name, `_user_pair_remove` changes nothing.
pub user_pair_remove-Absent :
    (past : Pair) (user : User) (name : Text)
    → Absent name user.additional
    → user_pair_remove past user name ≡ user
unfolding user_pair_remove
user_pair_remove-Absent past user name h = rw (remove_loop-Absent past name user.additional h)

-- What the loop leaves of the named pair and those behind it: the named pair is dropped only
-- where it is the last one; otherwise it stays, and the pair behind it is lost.
abbrev pub left_of : Pair → List Pair → List Pair
left_of p [] = []
left_of p (q ∷ behind) = p ∷ behind

take_left :
    (past p : Pair) (before behind : List Pair)
    → take (length (before ++ p ∷ behind) - 1) (before ++ p ∷ shift_down past behind)
      ≡ before ++ left_of p behind
unfolding shift_down
take_left past p before [] =
    let e : length (before ++ p ∷ []) - 1 ≡ length before + 0 =
      omega (arith, length-append before (p ∷ [])) in
    rw e (take-add (length before) 0 before _ refl)
take_left past p before (q ∷ behind) =
    let e : length (before ++ p ∷ (q ∷ behind)) - 1 ≡ length before + suc (length behind) =
      omega (arith, length-append before (p ∷ (q ∷ behind))) in
    rw e (
      take-add (length before) (suc (length behind)) before _ refl
      ∙ ap (λ (t : List Pair). before ++ p ∷ t) (take-shift_down past q behind))

-- For the first pair of the name, whatever stands behind the array: the pairs before it stay, it
-- is removed if it is the last, and otherwise it stays and the pair behind it is removed.
pub user_pair_remove_hit :
    (past : Pair) (user : User) (name : Text) (before : List Pair) (p : Pair) (behind : List Pair)
    → user.additional ≡ before ++ p ∷ behind
    → Absent name before
    → str_eq p.name name ≡ true
    → (user_pair_remove past user name).additional ≡ before ++ left_of p behind
unfolding user_pair_remove
user_pair_remove_hit past user name before p behind w h e =
    rw (w, remove_loop_hit past name before p behind h e) (take_left past p before behind)
