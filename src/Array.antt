-- ===== src/Array.antt =====
-- sp-daemon/array.c: the growing array under every table of the daemon, byte by byte.
-- `ptr` is the allocated block and an element is addressed by its offset in it. `unsigned int`
-- has 32 bits and `size_t` 64. New bytes that `realloc` hands out are unknown: they are `junk`.
pub mod Bytes
pub mod Refine
use spawny.Base.{
  ℕ, zero, suc, ◌+◌, ◌-◌, ◌*◌, ◌%◌, ◌^◌, List, [], ◌∷◌, ◌++◌, Option, none, some, ltb, take, drop,
  if◌then◌else◌,
}

abbrev pub u32 : ℕ → ℕ
u32 n = n % 2 ^ 32

abbrev pub u64 : ℕ → ℕ
u64 n = n % 2 ^ 64

pub record Array : Type 0 where
  pub ptr : List ℕ
  pub size : ℕ
  pub len : ℕ

-- `realloc (p, n)`: the first `n` bytes stay, and what lies beyond the old block is unknown.
unfoldable pub realloc : (ℕ → ℕ) → List ℕ → ℕ → List ℕ
realloc junk p zero = []
realloc junk [] (suc n) = junk n ∷ realloc junk [] n
realloc junk (b ∷ p) (suc n) = b ∷ realloc junk p n

-- `memmove (p + to, p + from, n)` inside one block.
unfoldable pub memmove : List ℕ → ℕ → ℕ → ℕ → List ℕ
memmove p to from n = take to p ++ (take n (drop from p) ++ drop (to + n) p)

-- `ACCESS (arr, i)`, as the offset from `arr->ptr`.
unfoldable pub access : Array → ℕ → ℕ
access arr i = i * arr.size

unfoldable pub array_new : ℕ → Array
array_new size = record { ptr = []; size = size; len = 0 }

-- The new array, and the offset of the element to fill.
unfoldable pub array_add : (ℕ → ℕ) → Array → Array × ℕ
unfolding access
array_add junk arr =
    let len = u32 (arr.len + 1) in
    let grown = record arr { ptr = realloc junk arr.ptr (u64 (len * arr.size)); len = len } in
    (grown, access grown (u32 (len + 2 ^ 32 - 1)))

unfoldable pub array_get : Array → ℕ → Option ℕ
unfolding access
array_get arr i = if ltb i arr.len then some (access arr i) else none

unfoldable pub array_del : (ℕ → ℕ) → Array → ℕ → Array
unfolding access
array_del junk arr i =
    let s = u64 ((arr.len - i - 1) * arr.size) in
    let moved = memmove arr.ptr (access arr i) (access arr (i + 1)) s in
    let len = arr.len - 1 in
    if ltb i arr.len
    then record arr { ptr = realloc junk moved (u64 (len * arr.size)); len = len }
    else arr

unfoldable pub array_len_get : Array → ℕ
array_len_get arr = arr.len
