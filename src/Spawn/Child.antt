-- ===== src/Spawn/Child.antt =====
-- spawnservice.c, the child's side: `open_tty`, `pam_auth`, `_handle_error` and the messages that
-- the child writes into the pipe. The system calls are parameters: what each one returned.
use spawny.Base.{
  ℕ, Bool, true, false, not, ◌&&◌, ◌||◌, List, [], ◌∷◌, ◌++◌, Option, none, some, ◌==◌, Text, codes,
  decimal,
}
use spawny.Spawn.Conversation.{PamMessage}

-- A step of the child: it goes on, or reports its reason by `_service_com_exit` and returns 0.
pub data Outcome {ℓ} (A : Type ℓ) : Type ℓ where
  ok : A → Outcome A
  failed : Text → Outcome A

infixl 5 ◌>>=◌ ◌>>◌
abbrev pub ◌>>=◌ {ℓ κ} : {A : Type ℓ} {B : Type κ} → Outcome A → (A → Outcome B) → Outcome B
ok a >>= f = f a
failed reason >>= f = failed reason

abbrev pub ◌>>◌ {ℓ} : {B : Type ℓ} → Outcome (Unit {0}) → Outcome B → Outcome B
m >> k = m >>= λ _. k

abbrev pub require : Bool → Text → Outcome (Unit {0})
require true reason = ok tt
require false reason = failed reason

-- What the system calls of one opening of the tty return.
pub record Opening : Type 0 where
  -- `open`: the new descriptor; `none` is -1
  pub fd : Option ℕ
  pub is_tty : Bool
  -- `tcgetsid`; `none` is -1
  pub sid : Option ℕ
  pub ioctl_ok : Bool
  -- the two calls of `dup`
  pub dup_first : ℕ
  pub dup_second : ℕ

pub record TtySystem : Type 0 where
  pub pid : ℕ
  pub has_user : Bool
  pub has_group : Bool
  pub first : Opening
  pub vhangup_ok : Bool
  pub second : Opening
  pub tcsetpgrp_ok : Bool
  pub chown_ok : Bool
  pub chmod_ok : Bool

abbrev pub is_some_fd : Option ℕ → Bool
is_some_fd none = false
is_some_fd (some fd) = true

-- `((tid = tcgetsid (fd)) < 0) || (pid != tid)`
abbrev pub not_controlling : Option ℕ → ℕ → Bool
not_controlling none pid = true
not_controlling (some tid) pid = not (tid == pid)

-- `fd != 0 || dup (fd) != 1 || dup (fd) != 2`
abbrev pub misplaced : Opening → Bool
misplaced o = elim o.fd [
  | none ↦ true
  | some fd ↦ not (fd == 0) || not (o.dup_first == 1) || not (o.dup_second == 2)
]

unfoldable pub open_tty : TtySystem → Outcome (Unit {0})
open_tty s = do
  require s.has_user (codes "Failed to fetch user")
  require s.has_group (codes "Failed to get group tty!")
  require (is_some_fd s.first.fd) (codes "Failed to open tty")
  require s.first.is_tty (codes "FD is not a tty")
  require (not (not_controlling s.first.sid s.pid) || s.first.ioctl_ok)
      (codes "Getting control of tty failed")
  require (not (misplaced s.first)) (codes "TTY fd´s where not at place 0, 1 and 2")
  require s.vhangup_ok (codes "vhangup failed!\n")
  require (is_some_fd s.second.fd) (codes "Failed to open tty")
  require (not (not_controlling s.second.sid s.pid) || s.second.ioctl_ok)
      (codes "Getting control of tty failed")
  require s.tcsetpgrp_ok (codes "Failed to get foreground proccess")
  require (not (misplaced s.second)) (codes "TTY fd´s where not at place 0, 1 and 2")
  require (s.chown_ok && s.chmod_ok) (codes "Own and mod failed!!!")

-- The results of PAM that the code tells apart.
pub data PamResult : Type 0 where
  success buf_err conv_err abort system_err auth_err cred_insufficient maxtries user_unknown :
      PamResult
  other : ℕ → PamResult

-- `_handle_error`: the reason that is reported.
unfoldable pub handle_error : PamResult → Text
handle_error buf_err = codes "Pam error PAM_BUF_ERR happend"
handle_error conv_err = codes "Pam error PAM_CONF_ERR happend"
handle_error abort = codes "Pam error PAM_ABORT happend"
handle_error system_err = codes "Pam error PAM_SYSTEM_ERR happend"
handle_error auth_err = codes "Pam error PAM_AUTH_ERR happend"
handle_error cred_insufficient = codes "Pam error PAM_CRED_INSUFFICIENT happend"
handle_error maxtries = codes "Pam error PAM_MAX_TRIES happend"
handle_error user_unknown = codes "Pam error PAM_USER_UNKNOWN happend"
handle_error r = codes "uncaught state"

-- `PAM_CHECK`
unfoldable pub pam_check : PamResult → Outcome (Unit {0})
unfolding handle_error
pam_check success = ok tt
pam_check r = failed (handle_error r)

pub record Settings : Type 0 where
  pub session_type : Option Text
  pub session_desktop : Option Text
  pub session_seat : Text

pub record Account : Type 0 where
  pub pw_name : Text
  pub pw_dir : Text
  pub pw_shell : Text

-- A call that may run `_pam_conv`, with one message at a time.
pub record PamCall : Type 0 where
  pub conversation : List PamMessage
  pub result : PamResult

pub record PamSystem : Type 0 where
  pub start : PamResult
  pub putenv : Text → PamResult
  pub authenticate : PamCall
  pub setcred : PamCall
  pub open_session : PamCall
  pub chdir_ok : Bool
  pub initgroups_ok : Bool
  pub setgid_ok : Bool
  pub setuid_ok : Bool

-- `PE (k, v)`: the text that goes to `pam_putenv`.
abbrev pub setting : Text → Text → Text
setting k v = k ++ (b'=' ∷ v)

abbrev pub optional : Text → Option Text → List Text
optional k none = []
optional k (some v) = setting k v ∷ []

-- The settings in the order of the calls.
abbrev pub settings_of : Account → Settings → ℕ → List Text
settings_of pwd s vtnr =
    setting (codes "HOME") pwd.pw_dir
    ∷ setting (codes "PWD") pwd.pw_dir
    ∷ setting (codes "SHELL") pwd.pw_shell
    ∷ setting (codes "USER") pwd.pw_name
    ∷ setting (codes "LOGNAME") pwd.pw_name
    ∷ setting (codes "XDG_SEAT") s.session_seat
    ∷ (optional (codes "XDG_SESSION_DESKTOP") s.session_desktop
        ++ (optional (codes "XDG_SESSION_TYPE") s.session_type
            ++ setting (codes "XDG_VTNR") (decimal vtnr) ∷ []))

unfoldable pub put_settings : PamSystem → List Text → Outcome (Unit {0})
unfolding pam_check
put_settings sys [] = ok tt
put_settings sys (s ∷ ss) = pam_check (sys.putenv s) >> put_settings sys ss

-- The end of `pam_auth`: the settings are what `pam_getenvlist` gives back.
unfoldable pub become_user : PamSystem → List Text → Outcome (List Text)
become_user sys env = do
  require sys.chdir_ok (codes "Change dir failed")
  require sys.initgroups_ok (codes "init the groups of usr failed")
  require sys.setgid_ok (codes "failed to set gid")
  require sys.setuid_ok (codes "failed to set uid")
  ok env

-- session_spawn.proto: what the child tells the daemon.
pub data Message : Type 0 where
  connect setup_done session_active : Message
  error_exit : Text → Message
