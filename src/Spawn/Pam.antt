-- ===== src/Spawn/Pam.antt =====
-- spawnservice.c, the child's side: `pam_auth`, what PAM reports meanwhile, and the child's branch of
-- `child_run`. What each call of PAM asked of `_pam_conv` and returned is a parameter.
use spawny.Base.{ℕ, Bool, true, false, List, [], ◌∷◌, ◌++◌, map, Option, none, some, Text, codes}
use spawny.Spawn.Child
use spawny.Spawn.Child.{
  Outcome, ok, failed, TtySystem, pam_check, Settings, Account, open_tty, PamCall, PamSystem,
  settings_of, put_settings, become_user, Message, connect, setup_done, session_active, error_exit,
}
use spawny.Spawn.Conversation.{pam_conv}

-- What was reported on the pipe by the conversation of PAM, and how the step ended.
abbrev pub Reported {ℓ} : Type ℓ → Type ℓ
Reported A = List Text × Outcome A

abbrev pub behind {ℓ κ} : {A : Type ℓ} {B : Type κ} → Outcome A → (A → Reported B) → List Text
behind (ok a) f = (f a).0
behind (failed reason) f = []

infixl 5 ◌>>=◌ ◌>>◌
abbrev pub ◌>>=◌ {ℓ κ} : {A : Type ℓ} {B : Type κ} → Reported A → (A → Reported B) → Reported B
m >>= f = (m.0 ++ behind m.1 f, Child.◌>>=◌ m.1 (λ a. (f a).1))

abbrev pub ◌>>◌ {ℓ} : {B : Type ℓ} → Reported (Unit {0}) → Reported B → Reported B
m >> k = m >>= λ _. k

abbrev pub silent {ℓ} : {A : Type ℓ} → Outcome A → Reported A
silent m = ([], m)

unfoldable pub pam_call : Option Text → PamCall → Reported (Unit {0})
pam_call pw c = (pam_conv pw c.conversation, pam_check c.result)

-- `pam_auth`
unfoldable pub pam_auth : PamSystem → Option Text → Account → Settings → ℕ → Reported (List Text)
unfolding put_settings pam_call become_user
pam_auth sys pw pwd s vtnr = do
  silent (pam_check sys.start)
  silent (put_settings sys (settings_of pwd s vtnr))
  pam_call pw sys.authenticate
  pam_call pw sys.setcred
  pam_call pw sys.open_session
  silent (become_user sys (settings_of pwd s vtnr))

-- The steps of the child up to its valid session.
unfoldable pub prepared :
    TtySystem → PamSystem → Option Text → Account → Settings → ℕ → Option Text → Reported (Unit {0})
unfolding open_tty pam_auth
prepared tty pam pw pwd s vtnr session = do
  silent (open_tty tty)
  pam_auth pam pw pwd s vtnr >>= λ env. silent (ok tt)
  silent (elim session [ none ↦ failed (codes "session is not valid") | some id ↦ ok tt ])

-- The child's branch of `child_run`: the messages in order, and whether the job is started.
unfoldable pub child_program :
    TtySystem → PamSystem → Option Text → Account → Settings → ℕ → Option Text → List Message × Bool
unfolding prepared
child_program tty pam pw pwd s vtnr session =
    let (said, end) = prepared tty pam pw pwd s vtnr session in
    elim end [
      | ok _ ↦ (connect ∷ (map error_exit said ++ setup_done ∷ session_active ∷ []), true)
      | failed reason ↦ (connect ∷ (map error_exit said ++ error_exit reason ∷ []), false)
    ]
