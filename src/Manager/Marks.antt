-- ===== src/Manager/Marks.antt =====
-- manager.c: marking entries, and taking the marked ones out.
use spawny.Base.{
  ℕ, zero, suc, ◌+◌, ◌≤◌, ◌<◌, ◌≡◌, refl, ap, ◌∙◌, Bool, true, false, List, [], ◌∷◌, none, some,
  ◌==◌, arith, get_elem?, length, keep, not, sym, All, Bool-cases, inl, inr,
}
use spawny.Manager.{FdRegister, Manager, clear_objects, mark, manager_unregister_fd, flush}

abbrev pub is_live : FdRegister → Bool
is_live r = elim r.cb [ none ↦ false | some c ↦ true ]

abbrev pub dead : List FdRegister → ℕ
dead [] = 0
dead (r ∷ rs) = elim r.cb [ none ↦ suc (dead rs) | some c ↦ dead rs ]

abbrev pub Distinct : List FdRegister → Type 0
Distinct [] = Unit {0}
Distinct (r ∷ rs) = All (λ q. (q.fd == r.fd) ≡ false) rs × Distinct rs

keep-clear_objects : (rs : List FdRegister) → keep is_live (clear_objects rs) ≡ keep is_live rs
unfolding clear_objects
keep-clear_objects [] = refl
keep-clear_objects (r ∷ rs) = ground (arith, keep-clear_objects rs)

dead-clear_objects : (n : ℕ) (rs : List FdRegister) → dead rs ≤ suc n → dead (clear_objects rs) ≤ n
unfolding clear_objects
dead-clear_objects n [] h = omega arith
dead-clear_objects n (r ∷ rs) h = ground (arith, dead-clear_objects n rs)

keep_all : (rs : List FdRegister) → dead rs ≤ 0 → keep is_live rs ≡ rs
keep_all [] h = refl
keep_all (r ∷ rs) h = ground (arith, keep_all rs)

-- As many rounds of `_clear_objects` as there are entries without a callback, or more, leave
-- exactly the entries with one, in order.
pub flush-keep : (n : ℕ) (rs : List FdRegister) → dead rs ≤ n → flush n rs ≡ keep is_live rs
unfolding flush
flush-keep zero rs h = ap (λ (t : List FdRegister). t) (let e = keep_all rs h in rw e)
flush-keep (suc n) rs h =
    flush-keep n (clear_objects rs) (dead-clear_objects n rs h) ∙ keep-clear_objects rs

mark_absent : (fd : ℕ) (rs : List FdRegister) → All (λ q. (q.fd == fd) ≡ false) rs → mark fd rs ≡ rs
unfolding mark
mark_absent fd [] h = refl
mark_absent fd (r ∷ rs) h = rw (h.0, mark_absent fd rs h.1)

All-mark :
    (fd n : ℕ) (rs : List FdRegister)
    → All (λ q. (q.fd == n) ≡ false) rs
    → All (λ q. (q.fd == n) ≡ false) (mark fd rs)
unfolding mark
All-mark fd n [] h = tt
All-mark fd n (r ∷ rs) h = elim (Bool-cases (r.fd == fd)) [
  | inl e ↦ rw e (h.0, All-mark fd n rs h.1)
  | inr e ↦ rw e (h.0, All-mark fd n rs h.1)
]

pub mark-Distinct : (fd : ℕ) (rs : List FdRegister) → Distinct rs → Distinct (mark fd rs)
unfolding mark
mark-Distinct fd [] h = tt
mark-Distinct fd (r ∷ rs) h = elim (Bool-cases (r.fd == fd)) [
  | inl e ↦ rw e (All-mark fd r.fd rs h.0, mark-Distinct fd rs h.1)
  | inr e ↦ rw e (All-mark fd r.fd rs h.0, mark-Distinct fd rs h.1)
]

pub dead-mark : (fd : ℕ) (rs : List FdRegister) → Distinct rs → dead (mark fd rs) ≤ dead rs + 1
unfolding mark
dead-mark fd [] h = omega arith
dead-mark fd (r ∷ rs) h = elim (Bool-cases (r.fd == fd)) [
  | inl e ↦
      let same : r.fd ≡ fd = ground arith in
      let rest = mark_absent fd rs (rw (← same) h.0) in rw (e, rest) (ground arith)
  | inr e ↦ rw e (ground (arith, dead-mark fd rs h.1))
]

pub length-mark : (fd : ℕ) (rs : List FdRegister) → length (mark fd rs) ≡ length rs
unfolding mark
length-mark fd [] = refl
length-mark fd (r ∷ rs) = ap suc (length-mark fd rs)

pub dead-keep : (rs : List FdRegister) → dead (keep is_live rs) ≡ 0
dead-keep [] = refl
dead-keep (r ∷ rs) = ground (arith, dead-keep rs)

All-keep_head :
    (n : ℕ) (r : FdRegister) (rest : List FdRegister) (b : Bool)
    → (r.fd == n) ≡ false
    → All (λ q. (q.fd == n) ≡ false) rest
    → All (λ q. (q.fd == n) ≡ false) (elim b [ true ↦ r ∷ rest | false ↦ rest ])
All-keep_head n r rest true h k = (h, k)
All-keep_head n r rest false h k = k

All-keep :
    (n : ℕ) (rs : List FdRegister)
    → All (λ q. (q.fd == n) ≡ false) rs
    → All (λ q. (q.fd == n) ≡ false) (keep is_live rs)
All-keep n [] h = tt
All-keep n (r ∷ rs) h = All-keep_head n r (keep is_live rs) (is_live r) h.0 (All-keep n rs h.1)

Distinct-head :
    (r : FdRegister) (rest : List FdRegister) (b : Bool)
    → All (λ q. (q.fd == r.fd) ≡ false) rest
    → Distinct rest
    → Distinct (elim b [ true ↦ r ∷ rest | false ↦ rest ])
Distinct-head r rest true h k = (h, k)
Distinct-head r rest false h k = k

pub keep-Distinct : (rs : List FdRegister) → Distinct rs → Distinct (keep is_live rs)
keep-Distinct [] h = tt
keep-Distinct (r ∷ rs) h =
    Distinct-head r (keep is_live rs) (is_live r) (All-keep r.fd rs h.0) (keep-Distinct rs h.1)

pub within :
    (rs : List FdRegister) (i : ℕ) (r : FdRegister) → get_elem? rs i ≡ some r → i < length rs
within [] i r e = absurd (ground arith)
within (q ∷ rs) zero r e = omega arith
within (q ∷ rs) (suc i) r e = omega (arith, within rs i r e)

not_marked :
    (fd : ℕ) (rs : List FdRegister)
    → All (λ q. (q.fd == fd) ≡ false) rs
    → keep (λ r. not (r.fd == fd)) rs ≡ rs
not_marked fd [] h = refl
not_marked fd (r ∷ rs) h = ground (arith, h.0, not_marked fd rs h.1)

clear_objects-mark :
    (fd : ℕ) (rs : List FdRegister)
    → dead rs ≡ 0
    → Distinct rs
    → clear_objects (mark fd rs) ≡ keep (λ r. not (r.fd == fd)) rs
unfolding clear_objects mark
clear_objects-mark fd [] z h = refl
clear_objects-mark fd (r ∷ rs) z h = elim (Bool-cases (r.fd == fd)) [
  | inl e ↦
      let same : r.fd ≡ fd = ground arith in
      let apart : All (λ q. (q.fd == fd) ≡ false) rs = rw (← same) h.0 in
      rw (e, keep) (mark_absent fd rs apart ∙ sym (not_marked fd rs apart))
  | inr e ↦ ground (arith, e, clear_objects-mark fd rs)
]

-- Between two rounds, with a callback in every entry and no descriptor there twice: unregistering
-- a descriptor leaves the entries of the others, in order.
pub manager_unregister_fd-keep :
    (fd : ℕ) (m : Manager)
    → dead m.fds ≡ 0
    → Distinct m.fds
    → m.readout ≡ false
    → manager_unregister_fd fd m ≡ record m { fds = keep (λ r. not (r.fd == fd)) m.fds }
unfolding manager_unregister_fd
manager_unregister_fd-keep fd m z h q = rw (q, clear_objects-mark fd m.fds z h)
