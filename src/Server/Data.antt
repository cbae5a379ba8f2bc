-- ===== src/Server/Data.antt =====
-- server.c: `_load_data`, what a greeter is told: the templates, the users and the sessions.
pub mod Sessions
pub mod Templates
pub mod Users
use mathlib.Core.Option
use spawny.Base.{
  ℕ, zero, suc, ◌+◌, ◌-◌, ◌*◌, Bool, true, false, List, [], ◌∷◌, ◌++◌, map, Option, none, some,
  Text, codes, take, length, ltb, ◌==◌, if◌then◌else◌, ◌>>=◌,
}
use spawny.UserDb.{User}
use spawny.UserDb.{Context}
use spawny.UserDb.Files.{Passwd, getpwnam}
use spawny.UserDb.Api.{user_db_users_iterate, user_db_field_get}
use spawny.Templates.{Registry, template_get, template_details_get}
use spawny.Sessions.{
  Logind, Details, Fetch, undefined, refused, got, session_enumerate, session_details,
}
use spawny.Client.{ProtoTemplate, ProtoSession, ProtoUser, ServerData}

-- The first account with that uid.
unfoldable pub getpwuid : List Passwd → ℕ → Option Passwd
getpwuid [] uid = none
getpwuid (pw ∷ pws) uid = if pw.pw_uid == uid then some pw else getpwuid pws uid

-- A write to an element; behind the block it is undefined.
unfoldable pub set {ℓ} : {A : Type ℓ} → List A → ℕ → A → Option (List A)
set [] i v = none
set (x ∷ xs) zero v = some (v ∷ xs)
set (x ∷ xs) (suc i) v = set xs i v >>= λ ys. some (x ∷ ys)

-- `realloc` of an array to a number of elements; what lies behind the old ones is unknown.
unfoldable pub realloc {ℓ} : {A : Type ℓ} → (ℕ → A) → List A → ℕ → List A
realloc junk xs zero = []
realloc junk [] (suc n) = junk n ∷ realloc junk [] n
realloc junk (x ∷ xs) (suc n) = x ∷ realloc junk xs n

-- `calloc` of NULL pointers.
unfoldable pub nulls {ℓ} : {A : Type ℓ} → ℕ → List (Option A)
nulls zero = []
nulls (suc n) = none ∷ nulls n

-- The pointers that are read when the data is sent: none of them may be NULL.
unfoldable pub all_some {ℓ} : {A : Type ℓ} → List (Option A) → Option (List A)
all_some [] = some []
all_some (none ∷ os) = none
all_some (some x ∷ os) = all_some os >>= λ xs. some (x ∷ xs)

-- What the daemon reads: accounts, logind, and the uid of SP_USER, `none` where it has no account.
pub record Host : Type 0 where
  pub passwd : List Passwd
  pub logind : Logind
  pub sp_user : Text

module _ (host : Host) where
  abbrev pub start_user : Option Passwd
  start_user = getpwnam host.passwd host.sp_user

  -- The slots of `sessions`. `ratio` is the size of a session over that of a pointer, `junk` what
  -- `realloc` hands out.
  module _ (ratio : ℕ) (junk : ℕ → Option ProtoSession) where
    -- The body of the loop of `_load_sessions`, behind `session_details`: the slots and `offset`;
    -- `none` is undefined behaviour.
    unfoldable pub session_step :
        ℕ
        → ℕ
        → ℕ
        → List (Option ProtoSession)
        → Text
        → Fetch Details
        → Option (List (Option ProtoSession) × ℕ)
    unfolding realloc set
    session_step number i offset slots handle undefined = none
    session_step number i offset slots handle refused = set slots (i - offset) none >>= λ slots'.
        some (realloc junk slots' ((number - (offset + 1)) * ratio), offset + 1)
    session_step number i offset slots handle (got d) = do
      start ← start_user
      let unfinished : Option (List (Option ProtoSession) × ℕ) =
          set slots (i - offset)
            (some (record { id = none; user = none; name = d.name; icon = none }))
          >>= λ slots'. some (slots', offset + 1)
      let finished : Option (List (Option ProtoSession) × ℕ) =
          getpwuid host.passwd d.uid >>= λ user.
          set slots (i - offset) (
            some
              (record { id = some handle; user = some user.pw_name; name = d.name; icon = none }))
          >>= λ slots'. some (slots', offset)
      if d.uid == start.pw_uid then unfinished else finished

    unfoldable pub sessions_loop :
        ℕ → ℕ → ℕ → List (Option ProtoSession) → List Text → Option (List (Option ProtoSession) × ℕ)
    unfolding session_step
    sessions_loop number i offset slots [] = some (slots, offset)
    sessions_loop number i offset slots (handle ∷ handles) =
        session_step number i offset slots handle
          (session_details host.logind true true (some handle))
        >>= λ r. sessions_loop number (i + 1) r.1 r.0 handles

    unfoldable pub load_sessions : Option Text → Option (List ProtoSession)
    unfolding sessions_loop nulls all_some
    load_sessions seat =
        let handles = session_enumerate host.logind seat in
        let number = length handles in
        sessions_loop number 0 0 (nulls number) handles >>= λ r. all_some (take (number - r.1) r.0)

  -- `_load_users`; an account that is gone is dereferenced.
  unfoldable pub load_users : Context → List Text → Option (List ProtoUser)
  load_users ctx [] = some []
  load_users ctx (name ∷ names) = do
    pass ← getpwnam host.passwd name
    icon ← user_db_field_get ctx name (codes "icon")
    prefered ← user_db_field_get ctx name (codes "prefered-session")
    rest ← load_users ctx names
    some (
        record {
          uid = pass.pw_uid;
          name = some pass.pw_name;
          icon = icon;
          prefered_session = prefered;
        }
        ∷ rest)

-- The loop of `_load_templates`.
unfoldable pub templates_of : Registry → List Text → Option (List ProtoTemplate)
templates_of r [] = some []
templates_of r (id ∷ ids) = do
  found ← template_details_get id r
  rest ← templates_of r ids
  some (
      record { id = some id; name = found >>= λ d. some d.name; icon = found >>= λ d. d.icon }
      ∷ rest)

unfoldable pub load_templates : Registry → Option (List ProtoTemplate)
unfolding templates_of
load_templates r = template_get r >>= λ ids. templates_of r ids

-- `_load_data`
unfoldable pub load_data :
    Host → ℕ → (ℕ → Option ProtoSession) → Registry → Context → Option Text → Option ServerData
unfolding load_templates load_users load_sessions
load_data host ratio junk r ctx seat = do
  templates ← load_templates r
  users ← load_users host ctx (user_db_users_iterate ctx)
  sessions ← load_sessions host ratio junk seat
  some (record { templates = templates; sessions = sessions; users = users })
