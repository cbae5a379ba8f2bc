-- ===== src/Base/Lists.antt =====
-- Lists measured and indexed by native numbers, under the library's names.
use Prim.Native.Nat.{ℕ, zero, suc, ◌+◌, ◌≤◌, ◌<◌}
use mathlib.Core.Path.{◌≡◌, refl, ap}
use mathlib.Core.List.{List, map, [], ◌∷◌, ◌++◌}
use mathlib.Core.Option.{Option, none, some}
use mathlib.Core.Bool.{Bool, true, false}
use native.Mathlib.Omega.{arith}

module _ {ℓ} {A : Type ℓ} where
  abbrev pub length : List A → ℕ
  length [] = 0
  length (x ∷ xs) = suc (length xs)

  abbrev pub get_elem? : List A → ℕ → Option A
  get_elem? [] i = none
  get_elem? (x ∷ xs) zero = some x
  get_elem? (x ∷ xs) (suc i) = get_elem? xs i

  abbrev pub take : ℕ → List A → List A
  take zero xs = []
  take (suc n) [] = []
  take (suc n) (x ∷ xs) = x ∷ take n xs

  abbrev pub drop : ℕ → List A → List A
  drop zero xs = xs
  drop (suc n) [] = []
  drop (suc n) (x ∷ xs) = drop n xs

  -- The list without its element number `i`; out of range, the list itself.
  abbrev pub delete_at : ℕ → List A → List A
  delete_at i [] = []
  delete_at zero (x ∷ xs) = xs
  delete_at (suc i) (x ∷ xs) = x ∷ delete_at i xs

  -- The elements that pass a Boolean test, in order.
  abbrev pub keep : (A → Bool) → List A → List A
  keep p [] = []
  keep p (x ∷ xs) = let rest = keep p xs in elim (p x) [ true ↦ x ∷ rest | false ↦ rest ]

  abbrev pub All {κ} : (A → Type κ) → List A → Type κ
  All P [] = Unit
  All P (x ∷ xs) = P x × All P xs

  pub length-append : (xs ys : List A) → length (xs ++ ys) ≡ length xs + length ys
  length-append [] ys = omega arith
  length-append (x ∷ xs) ys = omega (arith, length-append xs ys)

  pub take-append : (xs ys : List A) → take (length xs) (xs ++ ys) ≡ xs
  take-append [] ys = refl
  take-append (x ∷ xs) ys = ap (◌∷◌ x) (take-append xs ys)

  pub drop-append : (xs ys : List A) → drop (length xs) (xs ++ ys) ≡ ys
  drop-append [] ys = refl
  drop-append (x ∷ xs) ys = drop-append xs ys

  pub drop_all : (xs : List A) → drop (length xs) xs ≡ []
  drop_all [] = refl
  drop_all (x ∷ xs) = drop_all xs

  pub length-delete_at :
      (i : ℕ) (xs : List A) → i < length xs → length (delete_at i xs) + 1 ≡ length xs
  length-delete_at i [] h = elim h [ ]
  length-delete_at zero (x ∷ xs) h = omega arith
  length-delete_at (suc i) (x ∷ xs) h = omega (arith, length-delete_at i xs (omega arith))

  pub delete_at_beyond : (i : ℕ) (xs : List A) → length xs ≤ i → delete_at i xs ≡ xs
  delete_at_beyond i [] h = refl
  delete_at_beyond zero (x ∷ xs) h = absurd (omega arith)
  delete_at_beyond (suc i) (x ∷ xs) h = ap (◌∷◌ x) (delete_at_beyond i xs (omega arith))

  pub All-append {κ} : (P : A → Type κ) (xs ys : List A) → All P xs → All P ys → All P (xs ++ ys)
  All-append P [] ys hx hy = hy
  All-append P (x ∷ xs) ys hx hy = (hx.0, All-append P xs ys hx.1 hy)

  pub All-delete_at {κ} : (P : A → Type κ) (i : ℕ) (xs : List A) → All P xs → All P (delete_at i xs)
  All-delete_at P i [] h = h
  All-delete_at P zero (x ∷ xs) h = h.1
  All-delete_at P (suc i) (x ∷ xs) h = (h.0, All-delete_at P i xs h.1)

  pub get_elem?_inside : (i : ℕ) (xs : List A) → i < length xs → (x : A) × (get_elem? xs i ≡ some x)
  get_elem?_inside i [] h = elim h [ ]
  get_elem?_inside zero (x ∷ xs) h = (x, refl)
  get_elem?_inside (suc i) (x ∷ xs) h = get_elem?_inside i xs (omega arith)

  pub get_elem?_beyond : (i : ℕ) (xs : List A) → length xs ≤ i → get_elem? xs i ≡ none
  get_elem?_beyond i [] h = refl
  get_elem?_beyond zero (x ∷ xs) h = absurd (omega arith)
  get_elem?_beyond (suc i) (x ∷ xs) h = get_elem?_beyond i xs (omega arith)

  pub drop-add : (n m : ℕ) (p q : List A) → length p ≡ n → drop (n + m) (p ++ q) ≡ drop m q
  drop-add zero m [] q h = let e : 0 + m ≡ m = omega arith in rw e
  drop-add (suc n) m [] q h = absurd (omega arith)
  drop-add zero m (x ∷ p) q h = absurd (omega arith)
  drop-add (suc n) m (x ∷ p) q h =
      let e : suc n + m ≡ suc (n + m) = omega arith in rw e (drop-add n m p q (omega arith))

  pub take-add : (n m : ℕ) (p q : List A) → length p ≡ n → take (n + m) (p ++ q) ≡ p ++ take m q
  take-add zero m [] q h = let e : 0 + m ≡ m = omega arith in rw e
  take-add (suc n) m [] q h = absurd (omega arith)
  take-add zero m (x ∷ p) q h = absurd (omega arith)
  take-add (suc n) m (x ∷ p) q h =
      let e : suc n + m ≡ suc (n + m) = omega arith in
      rw e (ap (◌∷◌ x) (take-add n m p q (omega arith)))

pub All-pure {ℓ κ} : {A : Type ℓ} (P : A → Type κ) (xs : List A) → ((x : A) → P x) → All P xs
All-pure P [] f = tt
All-pure P (x ∷ xs) f = (f x, All-pure P xs f)

pub All-imp {ℓ κ μ} :
    {A : Type ℓ} (P : A → Type κ) (Q : A → Type μ) (xs : List A)
    → ((x : A) → P x → Q x)
    → All P xs
    → All Q xs
All-imp P Q [] f h = tt
All-imp P Q (x ∷ xs) f h = (f x h.0, All-imp P Q xs f h.1)

pub All-get_elem? {ℓ κ} :
    {A : Type ℓ} (P : A → Type κ) (xs : List A)
    → ((i : ℕ) (x : A) → get_elem? xs i ≡ some x → P x)
    → All P xs
All-get_elem? P [] h = tt
All-get_elem? P (x ∷ xs) h = (h 0 x refl, All-get_elem? P xs (λ i y e. h (suc i) y e))

pub All-map {ℓ κ μ} :
    {A : Type ℓ} {B : Type κ} (P : B → Type μ) (f : A → B) (xs : List A)
    → All (λ x. P (f x)) xs
    → All P (map f xs)
All-map P f [] h = tt
All-map P f (x ∷ xs) h = (h.0, All-map P f xs h.1)

pub get_elem?-map {ℓ κ} :
    {A : Type ℓ} {B : Type κ} (f : A → B) (i : ℕ) (xs : List A) (x : A)
    → get_elem? xs i ≡ some x
    → get_elem? (map f xs) i ≡ some (f x)
get_elem?-map f i [] x e = cc
get_elem?-map f zero (y ∷ xs) x e = ground arith
get_elem?-map f (suc i) (y ∷ xs) x e = get_elem?-map f i xs x e

-- Two lists of one length, their elements related in turn.
abbrev pub Zipped {ℓ κ} : {A : Type ℓ} {B : Type κ} → (A → B → Type 0) → List A → List B → Type 0
Zipped R [] [] = Unit {0}
Zipped R [] (y ∷ ys) = ⊥
Zipped R (x ∷ xs) [] = ⊥
Zipped R (x ∷ xs) (y ∷ ys) = R x y × Zipped R xs ys

pub Zipped-get_elem? {ℓ κ} :
    {A : Type ℓ} {B : Type κ} (R : A → B → Type 0) (n : ℕ) (xs : List A) (ys : List B) (x : A)
    → Zipped R xs ys
    → get_elem? xs n ≡ some x
    → (y : B) × (get_elem? ys n ≡ some y) × R x y
Zipped-get_elem? R n [] ys x z e = cc
Zipped-get_elem? R n (w ∷ xs) [] x z e = absurd z
Zipped-get_elem? R zero (w ∷ xs) (y ∷ ys) x z e =
    let same : w ≡ x = ground arith in (y, refl, rw same at z.0)
Zipped-get_elem? R (suc n) (w ∷ xs) (y ∷ ys) x z e = Zipped-get_elem? R n xs ys x z.1 e

pub Zipped-get_elem?-none {ℓ κ} :
    {A : Type ℓ} {B : Type κ} (R : A → B → Type 0) (n : ℕ) (xs : List A) (ys : List B)
    → Zipped R xs ys
    → get_elem? xs n ≡ none
    → get_elem? ys n ≡ none
Zipped-get_elem?-none R n [] [] z e = refl
Zipped-get_elem?-none R n [] (y ∷ ys) z e = absurd z
Zipped-get_elem?-none R n (w ∷ xs) [] z e = refl
Zipped-get_elem?-none R zero (w ∷ xs) (y ∷ ys) z e = cc
Zipped-get_elem?-none R (suc n) (w ∷ xs) (y ∷ ys) z e = Zipped-get_elem?-none R n xs ys z.1 e

pub Zipped-map {ℓ κ} :
    {A : Type ℓ} {B : Type κ} (R : A → B → Type 0) (f : A → B) (xs : List A)
    → ((x : A) → R x (f x))
    → Zipped R xs (map f xs)
Zipped-map R f [] h = tt
Zipped-map R f (x ∷ xs) h = (h x, Zipped-map R f xs h)

pub All-Zipped {ℓ κ ν π} :
    {A : Type ℓ} {B : Type κ} (R : A → B → Type 0) (P : A → Type ν) (Q : B → Type π) (xs : List A)
    (ys : List B)
    → ((x : A) (y : B) → R x y → P x → Q y)
    → Zipped R xs ys
    → All P xs
    → All Q ys
All-Zipped R P Q [] [] f z h = tt
All-Zipped R P Q [] (y ∷ ys) f z h = absurd z
All-Zipped R P Q (x ∷ xs) [] f z h = absurd z
All-Zipped R P Q (x ∷ xs) (y ∷ ys) f z h = (f x y z.0 h.0, All-Zipped R P Q xs ys f z.1 h.1)

pub append_cancel_right {ℓ} : {A : Type ℓ} (xs ys zs : List A) → xs ++ zs ≡ ys ++ zs → xs ≡ ys
append_cancel_right [] [] zs h = refl
append_cancel_right [] (y ∷ ys) zs h = absurd (omega (arith, ap length h, length-append ys zs))
append_cancel_right (x ∷ xs) [] zs h = absurd (omega (arith, ap length h, length-append xs zs))
append_cancel_right (x ∷ xs) (y ∷ ys) zs h =
    let tails = append_cancel_right xs ys zs (cc h) in cc (h, tails)
