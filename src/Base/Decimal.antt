-- ===== src/Base/Decimal.antt =====
-- `%d` of printf: decimal digits, their value and their number.
use native.Mathlib.Nat.{pow-suc, one-le-pow}
use Prim.Native.Nat.{ℕ, zero, suc, ◌+◌, ◌-◌, ◌*◌, ◌/◌, ◌%◌, ◌^◌, ◌≤◌, ◌<◌}
use mathlib.Core.Path.{◌≡◌, refl, ap, sym, ◌∙◌}
use mathlib.Core.Logic.{inl, inr}
use mathlib.Core.Bool.{true, false}
use mathlib.Core.List.{[], ◌∷◌, ◌++◌}
use native.Mathlib.Omega.{arith}
use spawny.Base.Tests.{ltb, if◌then◌else◌, Bool-cases}
use spawny.Base.Lists.{length, length-append}
use spawny.Base.Strings.{Text}

-- The digits of `n`, most significant first, with fuel.
unfoldable pub digits : ℕ → ℕ → Text
digits zero n = []
digits (suc fuel) n =
    let front = digits fuel (n / 10) in
    if ltb n 10 then (48 + n) ∷ [] else front ++ (48 + n % 10) ∷ []

unfoldable pub decimal : ℕ → Text
unfolding digits
decimal n = digits (suc n) n

value_from : ℕ → Text → ℕ
value_from acc [] = acc
value_from acc (c ∷ cs) = value_from (acc * 10 + (c - 48)) cs

value_from-append :
    (acc c : ℕ) (cs : Text) → value_from acc (cs ++ c ∷ []) ≡ value_from acc cs * 10 + (c - 48)
unfolding value_from
value_from-append acc c [] = refl
value_from-append acc c (d ∷ cs) = value_from-append (acc * 10 + (d - 48)) c cs

value-digits : (fuel n : ℕ) → n < fuel → value_from 0 (digits fuel n) ≡ n
unfolding digits
value-digits zero n h = absurd (omega arith)
value-digits (suc fuel) n h = elim (Bool-cases (ltb n 10)) [
  | inl e ↦ rw e (unfold value_from in omega arith)
  | inr e ↦
      let big : 10 ≤ n = ground arith in
      rw e (
        value_from-append 0 (48 + n % 10) (digits fuel (n / 10))
        ∙ omega (arith, value-digits fuel (n / 10) (omega arith)))
]

pub decimal-injective : (m n : ℕ) → decimal m ≡ decimal n → m ≡ n
unfolding decimal
decimal-injective m n h =
    sym (value-digits (suc m) m (omega arith))
    ∙ ap (value_from 0) h
    ∙ value-digits (suc n) n (omega arith)

length-digits :
    (fuel n k : ℕ) → n < fuel → 10 ^ k ≤ n → n < 10 ^ (suc k) → length (digits fuel n) ≡ suc k
unfolding digits
length-digits zero n k f lo hi = absurd (omega arith)
length-digits (suc fuel) n zero f lo hi = let e : ltb n 10 ≡ true = ground arith in rw e
length-digits (suc fuel) n (suc k) f lo hi =
    let pos : 0 < 10 ^ k = one-le-pow k 10 (omega arith) in
    let e : ltb n 10 ≡ false = ground (arith, pow-suc 10 k, one-le-pow k 10) in
    rw e (
      omega (
        arith,
        length-append (digits fuel (n / 10)) ((48 + n % 10) ∷ []),
        length-digits fuel (n / 10) k (omega arith) (omega (arith, pow-suc 10 k))
            (omega (arith, pow-suc 10 (suc k))),
      ))

-- A number between two powers of ten has as many digits as the exponent says, and one more.
pub length-decimal : (n k : ℕ) → 10 ^ k ≤ n → n < 10 ^ (suc k) → length (decimal n) ≡ suc k
unfolding decimal
length-decimal n k lo hi = length-digits (suc n) n k (omega arith) lo hi

digits_head : (fuel n : ℕ) → n < fuel → (c : ℕ) × (cs : Text) × (digits fuel n ≡ c ∷ cs) × (48 ≤ c)
unfolding digits
digits_head zero n h = absurd (omega arith)
digits_head (suc fuel) n h = elim (Bool-cases (ltb n 10)) [
  | inl e ↦ (48 + n, [], rw e, omega arith)
  | inr e ↦
      let big : 10 ≤ n = ground arith in
      let (c, cs, q, le) = digits_head fuel (n / 10) (omega arith) in
      (c, cs ++ (48 + n % 10) ∷ [], rw (e, q), le)
]

-- The first character is a digit.
pub decimal_head : (n : ℕ) → (c : ℕ) × (cs : Text) × (decimal n ≡ c ∷ cs) × (48 ≤ c)
unfolding decimal
decimal_head n = digits_head (suc n) n (omega arith)

pub length-decimal_zero : length (decimal 0) ≡ 1
unfolding decimal
length-decimal_zero = refl
