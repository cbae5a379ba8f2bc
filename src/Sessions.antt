-- ===== src/Sessions.antt =====
-- sp-daemon/sessionmgt_logind.c: what the daemon asks of logind about a session.
-- The functions of sd-login are parameters. A handle may be NULL, which is `none`.
use spawny.Base.{
  ℕ, ◌-◌, Bool, List, [], ◌++◌, Option, none, some, Text, codes, take, if◌then◌else◌, ◌>>=◌,
}

-- What a function that fills a field answers: the value, one of the four errors that are told apart,
-- or another one.
pub data Answer {ℓ} (A : Type ℓ) : Type ℓ where
  value : A → Answer A
  enxio enodata einval enomem other_error : Answer A

pub record Logind : Type 0 where
  pub sd_pid_get_session : ℕ → Option Text
  pub sd_session_get_seat : Text → Option Text
  pub sd_seat_get_sessions : Option Text → Option (List Text)
  pub sd_session_get_vt : Option Text → Answer ℕ
  pub sd_session_get_uid : Option Text → Answer ℕ
  pub sd_session_get_desktop : Option Text → Answer (Option Text)
  pub sd_session_get_type : Option Text → Answer (Option Text)

-- What a call of `session_details` comes to: it reads memory that was never written, it returns
-- false, or it goes on with a value.
pub data Fetch {ℓ} (A : Type ℓ) : Type ℓ where
  undefined refused : Fetch A
  got : A → Fetch A

infixl 5 ◌>>=f◌
abbrev pub ◌>>=f◌ {ℓ κ} : {A : Type ℓ} {B : Type κ} → Fetch A → (A → Fetch B) → Fetch B
undefined >>=f f = undefined
refused >>=f f = refused
got a >>=f f = f a

-- `GET_FIELD`: on an error that is not told apart the field stays unwritten, and is read later.
abbrev pub get_field {ℓ} : {A : Type ℓ} → Answer A → A → Fetch A
get_field (value a) errval = got a
get_field enxio errval = refused
get_field enodata errval = got errval
get_field einval errval = got errval
get_field enomem errval = got errval
get_field other_error errval = undefined

-- `none` is -1: the raw number is read only where there is one.
abbrev pub get_vt : Answer ℕ → Fetch (Option ℕ)
get_vt (value n) = got (some n)
get_vt enxio = refused
get_vt a = got none

-- The text that goes to the 1024 bytes of `max_name`; with neither part they stay unwritten.
unfoldable pub max_name : Option Text → Option Text → Option Text
max_name (some type) (some desktop) = some (take 1023 (type ++ (codes " - " ++ desktop)))
max_name (some type) none = some (take 1023 type)
max_name none (some desktop) = some (take 1023 desktop)
max_name none none = none

pub record Details : Type 0 where
  -- 0 where it was not asked for
  pub uid : ℕ
  pub name : Option Text
  pub vtnr : Option ℕ

module _ (sd : Logind) where
  unfoldable pub session_get : ℕ → Option Text
  session_get pid = sd.sd_pid_get_session pid

  unfoldable pub seat_get : ℕ → Option Text
  unfolding session_get
  seat_get pid = session_get pid >>= λ session. sd.sd_session_get_seat session

  -- An error is an empty list.
  unfoldable pub session_enumerate : Option Text → List Text
  session_enumerate seat = elim (sd.sd_seat_get_sessions seat) [
    | none ↦ []
    | some handles ↦ handles
  ]

  -- `session_details` with `uid` and `name` NULL or not.
  unfoldable pub session_details : Bool → Bool → Option Text → Fetch Details
  unfolding max_name
  session_details with_uid with_name handle = get_vt (sd.sd_session_get_vt handle) >>=f λ vtnr.
      (if with_uid then get_field (sd.sd_session_get_uid handle) 0 else got 0) >>=f λ uid.
      get_field (sd.sd_session_get_desktop handle) none >>=f λ desktop.
      get_field (sd.sd_session_get_type handle) none >>=f λ type. (elim (max_name type desktop) [
        | some text ↦
            got (record { uid = uid; name = if with_name then some text else none; vtnr = vtnr })
        | none ↦
            if with_name then undefined else got (record { uid = uid; name = none; vtnr = vtnr })
      ])

-- The command that `session_activate` runs, cut to PATH_MAX; a NULL handle runs none.
unfoldable pub session_activate : ℕ → Option Text → Option Text
session_activate path_max none = none
session_activate path_max (some handle) =
    some (take (path_max - 1) (codes "loginctl activate " ++ handle))
