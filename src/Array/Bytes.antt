-- ===== src/Array/Bytes.antt =====
-- Blocks of bytes as rows of equal size.
use spawny.Base.{
  ℕ, zero, suc, ◌+◌, ◌-◌, ◌*◌, ◌<◌, ◌≡◌, refl, ap, sym, ◌∙◌, List, [], ◌∷◌, ◌++◌, append_assoc,
  append-nil, arith, length, take, drop, delete_at, All, some, get_elem?, length-append,
  take-append, drop-append, drop-add,
}
use spawny.Array.{realloc, memmove}

abbrev pub concat : List (List ℕ) → List ℕ
concat [] = []
concat (r ∷ rs) = r ++ concat rs

-- Every row has `size` bytes.
abbrev pub Rows : ℕ → List (List ℕ) → Type 0
Rows size rs = All (λ r. length r ≡ size) rs

pub length-concat :
    (size : ℕ) (rs : List (List ℕ)) → Rows size rs → length (concat rs) ≡ length rs * size
length-concat size [] h = omega arith
length-concat size (r ∷ rs) h =
    omega (arith, length-append r (concat rs), length-concat size rs h.1, h.0)

pub concat-append : (rs ss : List (List ℕ)) → concat (rs ++ ss) ≡ concat rs ++ concat ss
concat-append [] ss = refl
concat-append (r ∷ rs) ss = ap (◌++◌ r) (concat-append rs ss) ∙ sym (append_assoc r _ _)

-- Shrinking and growing a block.
pub realloc-append :
    (junk : ℕ → ℕ) (p q : List ℕ) (n : ℕ) → length p ≡ n → realloc junk (p ++ q) n ≡ p
unfolding realloc
realloc-append junk [] q zero h = refl
realloc-append junk [] q (suc n) h = absurd (omega arith)
realloc-append junk (x ∷ p) q zero h = absurd (omega arith)
realloc-append junk (x ∷ p) q (suc n) h = ap (◌∷◌ x) (realloc-append junk p q n (omega arith))

pub realloc-grow :
    (junk : ℕ → ℕ) (p : List ℕ) (n m : ℕ)
    → length p ≡ n
    → realloc junk p (n + m) ≡ p ++ realloc junk [] m
unfolding realloc
realloc-grow junk [] zero m h = let e : 0 + m ≡ m = omega arith in rw e
realloc-grow junk [] (suc n) m h = absurd (omega arith)
realloc-grow junk (x ∷ p) zero m h = absurd (omega arith)
realloc-grow junk (x ∷ p) (suc n) m h =
    let e : suc n + m ≡ suc (n + m) = omega arith in
    rw e (ap (◌∷◌ x) (realloc-grow junk p n m (omega arith)))

pub length-realloc : (junk : ℕ → ℕ) (n : ℕ) → length (realloc junk [] n) ≡ n
unfolding realloc
length-realloc junk zero = refl
length-realloc junk (suc n) = ap suc (length-realloc junk n)

-- Row number `i` of a block.
pub row-concat :
    (size i : ℕ) (rs : List (List ℕ)) {r : List ℕ}
    → Rows size rs
    → get_elem? rs i ≡ some r
    → take size (drop (i * size) (concat rs)) ≡ r
row-concat size i [] h e = ground arith
row-concat size zero (s ∷ rs) h e =
    let z : zero * size ≡ 0 = omega arith in
    rw (z, ← h.0) (take-append s (concat rs) ∙ ground arith)
row-concat size (suc i) (s ∷ rs) h e =
    let z : suc i * size ≡ size + i * size = omega arith in
    rw z (rw (drop-add size (i * size) s (concat rs) h.0) (row-concat size i rs h.1 e))

-- A block cut at row `i`.
pub record CutAt (size i : ℕ) (rs : List (List ℕ)) : Type 0 where
  pub before : List (List ℕ)
  pub row : List ℕ
  pub behind : List (List ℕ)
  pub whole : concat rs ≡ concat before ++ (row ++ concat behind)
  pub without : delete_at i rs ≡ before ++ behind
  pub before_len : length (concat before) ≡ i * size
  pub row_len : length row ≡ size
  pub behind_len : length (concat behind) ≡ (length rs - i - 1) * size

pub cut_at : (size i : ℕ) (rs : List (List ℕ)) → Rows size rs → i < length rs → CutAt size i rs
cut_at size i [] h lt = elim lt [ ]
cut_at size zero (r ∷ rs) h lt = record {
  before = [];
  row = r;
  behind = rs;
  whole = refl;
  without = refl;
  before_len = omega arith;
  row_len = h.0;
  behind_len =
      let e : suc (length rs) - 0 - 1 ≡ length rs = omega arith in rw e (length-concat size rs h.1);
}
cut_at size (suc i) (r ∷ rs) h lt =
    let c = cut_at size i rs h.1 (omega arith) in
    record {
      before = r ∷ c.before;
      row = c.row;
      behind = c.behind;
      whole = ap (◌++◌ r) c.whole ∙ sym (append_assoc r (concat c.before) _);
      without = ap (◌∷◌ r) c.without;
      before_len = omega (arith, length-append r (concat c.before), c.before_len, h.0);
      row_len = c.row_len;
      behind_len =
          let e : suc (length rs) - suc i - 1 ≡ length rs - i - 1 = omega arith in
          rw e c.behind_len;
    }

-- `memmove` over a gap of `k` bytes leaves the bytes around it side by side.
pub memmove_gap :
    (a r b : List ℕ) (n k m : ℕ)
    → length a ≡ n
    → length r ≡ k
    → length b ≡ m
    → (rest : List ℕ) × (memmove (a ++ (r ++ b)) n (n + k) m ≡ (a ++ b) ++ rest)
unfolding memmove
memmove_gap a r b n k m ha hr hb = (
  drop (n + m) (a ++ (r ++ b)),
  rw (drop-add n k a (r ++ b) ha, ← ha, ← hr, ← hb, take-append a (r ++ b), drop-append r b)
      (ap (◌++◌ a) (ap (λ (t : List ℕ). t ++ drop (length a + length b) (a ++ (r ++ b))) take_all)
        ∙ sym (append_assoc a b _)),
)
  where
    take_all : take (length b) b ≡ b
    take_all = ap (take (length b)) (sym (append-nil b)) ∙ take-append b []
