-- ===== src/Array/Refine.antt =====
-- array.c: the byte array as a list of rows.
use mathlib.Core.Option
use native.Mathlib.Nat.{mod-eq_of_lt}
use spawny.Base.{
  ℕ, ◌+◌, ◌-◌, ◌*◌, ◌^◌, ◌<◌, ◌≡◌, refl, ap, sym, ◌∙◌, inl, inr, List, [], ◌∷◌, ◌++◌, Option, some,
  append-nil, arith, ltb, Bool-cases, length, take, drop, delete_at, get_elem?, length-append,
  drop-add, All-append, All-delete_at, length-delete_at, delete_at_beyond, take-append,
  get_elem?_inside, get_elem?_beyond, ltb→lt, drop_all,
}
use spawny.Array.{
  Array, array_new, array_add, array_get, array_del, realloc, memmove, access, u32, u64,
}
use spawny.Array.Bytes.{
  concat, Rows, length-concat, concat-append, realloc-append, realloc-grow, length-realloc,
  row-concat, cut_at, memmove_gap,
}

-- The array holds these rows, in this order.
pub record Holds (arr : Array) (rs : List (List ℕ)) : Type 0 where
  pub rows : Rows arr.size rs
  pub block : arr.ptr ≡ concat rs
  pub count : arr.len ≡ length rs
  pub len_fits : arr.len < 2 ^ 32
  pub size_fits : arr.size < 2 ^ 32

-- A client's write of an element through the pointer that `array_add` returns.
abbrev pub store : List ℕ → ℕ → List ℕ → List ℕ
store p off e = take off p ++ (e ++ drop (off + length e) p)

-- A client's read of an element through the pointer that `array_get` returns.
abbrev pub read : Array → ℕ → Option (List ℕ)
read arr i = Option.map (λ off. take arr.size (drop off arr.ptr)) (array_get arr i)

pub array_new-Holds : (size : ℕ) → size < 2 ^ 32 → Holds (array_new size) []
unfolding array_new
array_new-Holds size h = record {
  rows = tt;
  block = refl;
  count = refl;
  len_fits = omega arith;
  size_fits = h;
}

product_fits : (a b : ℕ) → a < 2 ^ 32 → b < 2 ^ 32 → a * b < 2 ^ 64
product_fits a b ha hb = grind arith

u64_product : (a b : ℕ) → a < 2 ^ 32 → b < 2 ^ 32 → u64 (a * b) ≡ a * b
u64_product a b ha hb = mod-eq_of_lt (product_fits a b ha hb)

-- Where an array holds a list of rows, reading any index gives the row of that number, and NULL
-- behind the last.
pub read-Holds :
    (arr : Array) (rs : List (List ℕ)) (i : ℕ) → Holds arr rs → read arr i ≡ get_elem? rs i
unfolding array_get access
read-Holds arr rs i h = elim (Bool-cases (ltb i arr.len)) [
  | inl inside ↦
      let (r, e) = get_elem?_inside i rs (omega (arith, ltb→lt _ _ inside, h.count)) in
      rw (inside, e) (ap some (rw h.block (row-concat arr.size i rs h.rows e)))
  | inr beyond ↦ rw (beyond, get_elem?_beyond i rs (ground (arith, h.count)))
]

add_store :
    (junk : ℕ → ℕ) (p e : List ℕ) (n size : ℕ)
    → length p ≡ n
    → length e ≡ size
    → store (realloc junk p (n + size)) n e ≡ p ++ e
add_store junk p e n size hp he =
    rw
      (
        realloc-grow junk p n size hp,
        drop-add n (length e) p (realloc junk [] size) hp,
        ← hp,
        take-append p _,
      )
      (ap (λ (t : List ℕ). p ++ (e ++ t))
          (nothing (realloc junk [] size) (length-realloc junk size ∙ sym he))
        ∙ ap (◌++◌ p) (append-nil e))
  where
    nothing : (q : List ℕ) → length q ≡ length e → drop (length e) q ≡ []
    nothing q h = rw (← h) (drop_all q)

-- Where an array holds fewer than 2 ^ 32 - 1 rows, adding an element and filling it appends its
-- row; the rows before it stay.
pub array_add-Holds :
    (junk : ℕ → ℕ) (arr : Array) (rs : List (List ℕ)) (e : List ℕ)
    → Holds arr rs
    → length e ≡ arr.size
    → length rs + 1 < 2 ^ 32
    → let (grown, off) = array_add junk arr in
      Holds (record grown { ptr = store grown.ptr off e }) (rs ++ e ∷ [])
unfolding array_add access
array_add-Holds junk arr rs e h he room = record {
  rows = All-append (λ r. length r ≡ arr.size) rs (e ∷ []) h.rows (he, tt);
  block =
      rw (len_lem, idx_lem, bytes_lem, h.block)
        (add_store junk (concat rs) e (arr.len * arr.size) arr.size
            (rw h.count (length-concat arr.size rs h.rows)) he
          ∙ ap (◌++◌ (concat rs)) (sym (append-nil e))
          ∙ sym (concat-append rs (e ∷ [])));
  count = rw len_lem (omega (arith, length-append rs (e ∷ []), h.count));
  len_fits = rw len_lem (omega (arith, h.count));
  size_fits = h.size_fits;
}
  where
    len_lem : u32 (arr.len + 1) ≡ arr.len + 1
    len_lem = mod-eq_of_lt (omega (arith, h.count))

    idx_lem : u32 (arr.len + 1 + 2 ^ 32 - 1) ≡ arr.len
    idx_lem = omega arith

    bytes_lem : u64 ((arr.len + 1) * arr.size) ≡ arr.len * arr.size + arr.size
    bytes_lem =
        u64_product (arr.len + 1) arr.size (omega (arith, h.count)) h.size_fits ∙ omega arith

-- The block after a deletion inside the array.
del_block :
    (junk : ℕ → ℕ) (arr : Array) (rs : List (List ℕ)) (i : ℕ)
    → Holds arr rs
    → i < length rs
    → realloc junk
        (memmove arr.ptr (i * arr.size) ((i + 1) * arr.size) (u64 ((arr.len - i - 1) * arr.size)))
        (u64 ((arr.len - 1) * arr.size))
      ≡ concat (delete_at i rs)
del_block junk arr rs i h lt =
    let c = cut_at arr.size i rs h.rows lt in
    let (rest, e) =
      memmove_gap (concat c.before) c.row (concat c.behind) (i * arr.size) arr.size
        ((length rs - i - 1) * arr.size) c.before_len c.row_len c.behind_len in
    let rows = All-delete_at (λ r. length r ≡ arr.size) i rs h.rows in
    let start : (i + 1) * arr.size ≡ i * arr.size + arr.size = omega arith in
    rw
      (
        u64_product (arr.len - i - 1) arr.size (omega (arith, h.len_fits)) h.size_fits,
        u64_product (arr.len - 1) arr.size (omega (arith, h.len_fits)) h.size_fits,
        h.block,
        h.count,
        c.whole,
        start,
        e,
        ← concat-append c.before c.behind,
        ← c.without,
      )
      (realloc-append junk (concat (delete_at i rs)) rest ((length rs - 1) * arr.size) (
        length-concat arr.size (delete_at i rs) rows
        ∙ ap (λ (t : ℕ). t * arr.size) (omega (arith, length-delete_at i rs lt))))

-- Where an array holds a list of rows, deleting index `i` removes that row and keeps the others in
-- order; out of range nothing changes.
pub array_del-Holds :
    (junk : ℕ → ℕ) (arr : Array) (rs : List (List ℕ)) (i : ℕ)
    → Holds arr rs
    → Holds (array_del junk arr i) (delete_at i rs)
unfolding array_del access
array_del-Holds junk arr rs i h = elim (Bool-cases (ltb i arr.len)) [
  | inl inside ↦
      let lt : i < length rs = omega (arith, ltb→lt _ _ inside, h.count) in
      rw (inside, array_del)
        (record {
          rows = All-delete_at (λ r. length r ≡ arr.size) i rs h.rows;
          block = del_block junk arr rs i h lt;
          count = omega (arith, length-delete_at i rs lt, h.count);
          len_fits = omega (arith, h.len_fits);
          size_fits = h.size_fits;
        })
  | inr beyond ↦ rw (beyond, array_del) (rw (delete_at_beyond i rs (ground (arith, h.count))) h)
]
