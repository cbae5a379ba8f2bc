-- ===== src/Templates.antt =====
-- sp-daemon/templatereg.c: the registry of session templates.
-- A `Template_Fire_Up` and a `void *` are addresses, numbers. The array of templates is a list:
-- see Array.Refine for the byte array. The array is NULL before the first registration.
-- `none` in a result is undefined behaviour: `array_len_get` on that NULL, or `abs (INT_MIN)`.
pub mod Ids
pub mod Find
pub mod Laws
use mathlib.Core.Option
use spawny.Base.{
  ℕ, zero, suc, ◌+◌, ◌-◌, ◌%◌, ◌^◌, Bool, true, false, List, [], ◌∷◌, ◌++◌, map, Option, none, some,
  Text, codes, str_eq, decimal, take, length, delete_at, ltb, ◌==◌, if◌then◌else◌, ◌>>=◌,
}

pub record Template : Type 0 where
  pub id : Text
  pub name : Text
  pub icon : Option Text
  pub type : Text
  pub cb : ℕ
  pub data_ptr : ℕ

pub record Registry : Type 0 where
  pub array : Option (List Template)
  pub counter : ℕ

abbrev pub init : Registry
init = record { array = none; counter = 0 }

-- `find_temp`: the index and the template.
unfoldable pub find_temp : Text → List Template → Option (ℕ × Template)
find_temp id [] = none
find_temp id (t ∷ ts) =
    if str_eq id t.id then some (0, t) else Option.map (λ r. (suc r.0, r.1)) (find_temp id ts)

-- `"%d"` of an unsigned 32-bit value, and its magnitude as `abs` of the int gives it.
unfoldable pub print_int : ℕ → Text
print_int v = if ltb v (2 ^ 31) then decimal v else b'-' ∷ decimal (2 ^ 32 - v)

module _ (log10 : ℕ → ℕ) where
  -- The length of an unsigned 32-bit value that is read as an int, `abs` being defined on it; `log10`
  -- is libm's, its result cut to an int.
  unfoldable pub int_digits : ℕ → ℕ
  int_digits v =
      if v == 0 then 1 else (if ltb v (2 ^ 31) then log10 v + 1 else log10 (2 ^ 32 - v) + 1 + 1)

  -- main.h, `INT_LENGTH`: 2 ^ 31 becomes INT_MIN, whose `abs` is undefined.
  unfoldable pub int_length : ℕ → Option ℕ
  unfolding int_digits
  int_length v = if v == 2 ^ 31 then none else some (int_digits v)

  -- `snprintf (buf, sizeof (buf), "t%d", counter)` with `char buf[length + 2]`.
  unfoldable pub print_id : ℕ → ℕ → Text
  unfolding print_int
  print_id length counter = take (length + 2 - 1) (b't' ∷ print_int counter)

  -- The id of a counter for which `INT_LENGTH` is defined.
  unfoldable pub id_text : ℕ → Text
  unfolding print_id
  id_text counter = print_id (int_digits counter) counter

  -- `template_register` behind the size of `buf`. The answer is the new template's id; NULL when the
  -- name or the function is missing.
  unfoldable pub register_sized :
      ℕ → Option Text → Option Text → Text → Option ℕ → ℕ → Registry → Registry × Option Text
  unfolding print_id
  register_sized length none icon type fire_up ptr r = (r, none)
  register_sized length (some name) icon type none ptr r = (r, none)
  register_sized length (some name) icon type (some fire_up) ptr r =
      let id = print_id length r.counter in
      let temp : Template = record {
        id = id;
        name = name;
        icon = icon;
        type = type;
        cb = fire_up;
        data_ptr = ptr;
      } in
      let old : List Template = elim r.array [ none ↦ [] | some ts ↦ ts ] in
      (record { array = some (old ++ temp ∷ []); counter = (r.counter + 1) % 2 ^ 32 }, some id)

  unfoldable pub template_register :
      Option Text → Option Text → Text → Option ℕ → ℕ → Registry → Option (Registry × Option Text)
  unfolding int_length register_sized
  template_register name icon type fire_up ptr r =
      int_length r.counter >>= λ size. some (register_sized size name icon type fire_up ptr r)

unfoldable pub unregister_in : Text → List Template → List Template × Bool
unregister_in id ts = elim (find_temp id ts) [
  | none ↦ (ts, false)
  | some (i, t) ↦ (delete_at i ts, true)
]

unfoldable pub template_unregister : Text → Registry → Option (Registry × Bool)
unfolding unregister_in
template_unregister id r = do
  ts ← r.array
  some (record r { array = some (unregister_in id ts).0 }, (unregister_in id ts).1)

pub record Details : Type 0 where
  pub name : Text
  pub icon : Option Text
  pub type : Text

abbrev pub details : Template → Details
details t = record { name = t.name; icon = t.icon; type = t.type }

-- The inner `none` is the answer 0, "no such template".
unfoldable pub template_details_get : Text → Registry → Option (Option Details)
template_details_get id r = do ts ← r.array; some (Option.map (λ f. details f.1) (find_temp id ts))

-- The call `cb (data)` that is made.
unfoldable pub template_run : Text → Registry → Option (Option (ℕ × ℕ))
template_run id r = do
  ts ← r.array
  some (Option.map (λ f. (f.1.cb, f.1.data_ptr)) (find_temp id ts))

-- `int count`: from 2 ^ 31 templates on it is negative, and the ids that are reported were never
-- written.
unfoldable pub template_get : Registry → Option (List Text)
template_get r =
    r.array >>= λ ts. (if ltb (length ts) (2 ^ 31) then some (map (λ t. t.id) ts) else none)

-- The loop of `template_shutdown`, with fuel.
unfoldable pub drain : ℕ → List Template → Option (List Template)
drain zero ts = none
drain (suc fuel) [] = some []
drain (suc fuel) (t ∷ ts) = drain fuel (unregister_in t.id (t ∷ ts)).0

unfoldable pub template_shutdown : ℕ → Registry → Option (Unit {0})
template_shutdown fuel r = r.array >>= λ ts. drain fuel ts >>= λ _. some tt
