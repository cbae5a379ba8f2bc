-- ===== src/UserDb.antt =====
-- sp-user-db/user_db.c: the user database. This file has the tables in memory; Files reads and
-- writes the .ini files, Api has the functions of user_db.h.
-- An array with its count is a list, and a NULL-terminated string a list of codes. `none` in the
-- result of a function that can crash is undefined behaviour, such as a NULL dereference.
pub mod Files
pub mod Api
pub mod Remove
pub mod Reload
pub mod Fields
pub mod Lifecycle
pub mod Written
pub mod Sync
use spawny.Base.{
  ℕ, zero, suc, ◌+◌, ◌-◌, Bool, true, false, List, [], ◌∷◌, ◌++◌, Option, none, some, Text, str_eq,
  length, take, if◌then◌else◌,
}

pub record Pair : Type 0 where
  pub value : Text
  pub name : Text

pub record User : Type 0 where
  pub name : Text
  pub additional : List Pair

pub record Context : Type 0 where
  pub started_uid : ℕ
  pub user : List User
  pub loaded_from_fs : Bool
  pub ref : ℕ

-- The new slot is zeroed there; both callers fill its two fields at once.
unfoldable pub user_pair_add : User → Pair → User
user_pair_add user pair = record user { additional = user.additional ++ pair ∷ [] }

-- `additional[i] = additional[i + 1]` for the rest of the loop. At the last index the slot behind
-- the array is read: `past` is what stands there.
unfoldable pub shift_down : Pair → List Pair → List Pair
shift_down past [] = []
shift_down past (p ∷ []) = past ∷ []
shift_down past (p ∷ (q ∷ ps)) = q ∷ shift_down past (q ∷ ps)

-- The loop of `_user_pair_remove`, and the value of `swap` behind it.
unfoldable pub remove_loop : Pair → Text → List Pair → List Pair × Bool
unfolding shift_down
remove_loop past name [] = ([], false)
remove_loop past name (p ∷ ps) =
    let rest = remove_loop past name ps in
    if str_eq p.name name then (p ∷ shift_down past ps, true) else (p ∷ rest.0, rest.1)

unfoldable pub user_pair_remove : Pair → User → Text → User
unfolding remove_loop
user_pair_remove past user name =
    let (moved, swap) = remove_loop past name user.additional in
    if swap then record user { additional = take (length user.additional - 1) moved } else user

-- `_user_find`: the first user of that name.
unfoldable pub user_find : Text → List User → Option User
user_find name [] = none
user_find name (u ∷ us) = if str_eq u.name name then some u else user_find name us

-- `_user_field_get`: the first pair of that name.
unfoldable pub user_field_get : List Pair → Text → Option Pair
user_field_get [] field = none
user_field_get (p ∷ ps) field = if str_eq p.name field then some p else user_field_get ps field

-- `_user_list_free`
unfoldable pub user_list_free : Context → Context
user_list_free ctx = record ctx { user = []; loaded_from_fs = false }

-- The pair that `pair` points to in `user_db_field_set` gets its new value.
unfoldable pub write_value : List Pair → Text → Text → List Pair
write_value [] field value = []
write_value (p ∷ ps) field value =
    if str_eq p.name field then record p { value = value } ∷ ps else p ∷ write_value ps field value

-- The array of the user that `_user_find` returned is changed in place.
unfoldable pub update_user : User → List User → List User
update_user user [] = []
update_user user (u ∷ us) = if str_eq u.name user.name then user ∷ us else u ∷ update_user user us
