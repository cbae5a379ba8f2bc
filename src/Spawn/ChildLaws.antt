-- ===== src/Spawn/ChildLaws.antt =====
-- spawnservice.c, the child's side: when the job starts, and what is reported.
use spawny.Base.{
  ℕ, ◌≡◌, ◌≢◌, ◌⊎◌, inl, inr, refl, ap, ◌∙◌, true, false, List, [], ◌∷◌, ◌++◌, map, Option, none,
  some, Text, codes, arith, append_assoc, append-nil,
}
use spawny.Spawn.Child.{
  Outcome, ok, failed, TtySystem, PamResult, success, Account, Settings, open_tty, pam_check,
  connect, setup_done, session_active, error_exit, PamCall, PamSystem, settings_of, put_settings,
  become_user,
}
use spawny.Spawn.Conversation.{pam_conv}
use spawny.Spawn.Pam.{Reported, silent, ◌>>=◌, ◌>>◌, pam_call, pam_auth, prepared, child_program}

-- What PAM and the system calls behind it must have answered.
pub record LoggedIn (sys : PamSystem) : Type 0 where
  pub start : sys.start ≡ success
  pub authenticate : sys.authenticate.result ≡ success
  pub setcred : sys.setcred.result ≡ success
  pub open_session : sys.open_session.result ≡ success
  pub initgroups : sys.initgroups_ok ≡ true
  pub setgid : sys.setgid_ok ≡ true
  pub setuid : sys.setuid_ok ≡ true

pub record OwnsTty (sys : TtySystem) : Type 0 where
  pub user : sys.has_user ≡ true
  pub first_tty : sys.first.is_tty ≡ true
  pub hung_up : sys.vhangup_ok ≡ true
  pub owned : sys.chown_ok ≡ true
  pub mode : sys.chmod_ok ≡ true

pam_check-ok : (r : PamResult) → pam_check r ≡ ok tt → r ≡ success
unfolding pam_check
pam_check-ok r h = ground arith

Outcome-cases {ℓ} :
    {A : Type ℓ} (m : Outcome A) → ((a : A) × (m ≡ ok a)) ⊎ ((reason : Text) × (m ≡ failed reason))
Outcome-cases (ok a) = inl (a, refl)
Outcome-cases (failed r) = inr (r, refl)

open_tty-OwnsTty : (s : TtySystem) → open_tty s ≡ ok tt → OwnsTty s
unfolding open_tty
open_tty-OwnsTty s h = ground arith

pam_auth-LoggedIn :
    (sys : PamSystem) (pw : Option Text) (pwd : Account) (s : Settings) (vtnr : ℕ) (env : List Text)
    → (pam_auth sys pw pwd s vtnr).1 ≡ ok env
    → LoggedIn sys
unfolding pam_auth pam_call
pam_auth-LoggedIn sys pw pwd s vtnr env h = ground (
  arith,
  pam_check-ok sys.start,
  pam_check-ok sys.authenticate.result,
  pam_check-ok sys.setcred.result,
  pam_check-ok sys.open_session.result,
)

abbrev pub said_by : Option Text → List PamCall → List Text
said_by pw [] = []
said_by pw (c ∷ cs) = pam_conv pw c.conversation ++ said_by pw cs

-- All that PAM has to say, where each of its calls is made.
abbrev pub spoken : PamSystem → Option Text → List Text
spoken sys pw = said_by pw (sys.authenticate ∷ sys.setcred ∷ sys.open_session ∷ [])

-- What was reported is the beginning of that, and where the steps ended well, all of it.
abbrev Begins {ℓ} : {A : Type ℓ} → Reported A → List Text → Type 0
Begins (said, ok a) all = said ≡ all
Begins (said, failed reason) all = (rest : List Text) × (said ++ rest ≡ all)

silent-Begins {ℓ κ} :
    {A : Type ℓ} {B : Type κ} (m : Outcome A) (f : A → Reported B) (all : List Text)
    → ((a : A) → Begins (f a) all)
    → Begins (silent m >>= f) all
silent-Begins (ok a) f all h = h a
silent-Begins (failed reason) f all h = (all, refl)

then-Begins {ℓ} :
    {B : Type ℓ} (said : List Text) (r : Reported B) (all : List Text)
    → Begins r all
    → Begins (said ++ r.0, r.1) (said ++ all)
then-Begins said (more, ok b) all h = ap (λ x. said ++ x) h
then-Begins said (more, failed reason) all (rest, h) =
    (rest, append_assoc said more rest ∙ ap (λ x. said ++ x) h)

call-Begins {ℓ} :
    {B : Type ℓ} (pw : Option Text) (c : PamCall) (r : Reported B) (all : List Text)
    → Begins r all
    → Begins (pam_call pw c >> r) (pam_conv pw c.conversation ++ all)
unfolding pam_call
call-Begins pw c r all h = elim (Outcome-cases (pam_check c.result)) [
  | inl (_, e) ↦ rw e (then-Begins (pam_conv pw c.conversation) r all h)
  | inr (reason, e) ↦ rw e (all, ap (λ x. x ++ all) (append-nil (pam_conv pw c.conversation)))
]

after-Begins {ℓ κ} :
    {A : Type ℓ} {B : Type κ} (m : Reported A) (g : A → Outcome B) (all : List Text)
    → Begins m all
    → Begins (m >>= λ a. silent (g a)) all
after-Begins (said, ok a) g all h = elim (Outcome-cases (g a)) [
  | inl (b, e) ↦ rw e (append-nil said ∙ h)
  | inr (reason, e) ↦ rw e ([], append-nil (said ++ []) ∙ append-nil said ∙ h)
]
after-Begins (said, failed reason) g all (rest, h) =
    (rest, ap (λ x. x ++ rest) (append-nil said) ∙ h)

pam_auth-Begins :
    (sys : PamSystem) (pw : Option Text) (pwd : Account) (s : Settings) (vtnr : ℕ)
    → Begins (pam_auth sys pw pwd s vtnr) (spoken sys pw)
unfolding pam_auth
pam_auth-Begins sys pw pwd s vtnr =
    let last : Reported (List Text) = silent (become_user sys (settings_of pwd s vtnr)) in
    let opened = pam_call pw sys.open_session >> last in
    let set = pam_call pw sys.setcred >> opened in
    let authenticated = pam_call pw sys.authenticate >> set in
    silent-Begins (pam_check sys.start)
      (λ _. silent (put_settings sys (settings_of pwd s vtnr)) >> authenticated) _
      (λ _.
        silent-Begins (put_settings sys (settings_of pwd s vtnr)) (λ _. authenticated) _
          (λ _. call-Begins pw sys.authenticate set _ (
            call-Begins pw sys.setcred opened _
              (call-Begins pw sys.open_session last _ (last-Begins _)))))
  where
    last-Begins : (m : Outcome (List Text)) → Begins (silent m) []
    last-Begins (ok a) = refl
    last-Begins (failed reason) = ([], refl)

prepared-Begins :
    (tty : TtySystem) (pam : PamSystem) (pw : Option Text) (pwd : Account) (s : Settings) (vtnr : ℕ)
    (session : Option Text)
    → Begins (prepared tty pam pw pwd s vtnr session) (spoken pam pw)
unfolding prepared
prepared-Begins tty pam pw pwd s vtnr session =
    let valid : Unit {0} → Outcome (Unit {0}) =
      λ _. elim session [ none ↦ failed (codes "session is not valid") | some id ↦ ok tt ] in
    let auth = pam_auth pam pw pwd s vtnr >>= λ env. silent (ok tt) in
    silent-Begins (open_tty tty) (λ _. auth >>= λ u. silent (valid u)) _
      (λ _. after-Begins auth valid _ (
        after-Begins (pam_auth pam pw pwd s vtnr) (λ env. ok tt) _
          (pam_auth-Begins pam pw pwd s vtnr)))

-- The child is ready to start its job.
abbrev pub IsReady : TtySystem → PamSystem → Option Text → Type 0
IsReady tty pam session = OwnsTty tty × LoggedIn pam × (session ≢ none)

prepared-IsReady :
    (tty : TtySystem) (pam : PamSystem) (pw : Option Text) (pwd : Account) (s : Settings) (vtnr : ℕ)
    (session : Option Text)
    → (prepared tty pam pw pwd s vtnr session).1 ≡ ok tt
    → IsReady tty pam session
unfolding prepared
prepared-IsReady tty pam pw pwd s vtnr session h = elim (Outcome-cases (open_tty tty)) [
  | inr (reason, e) ↦ absurd (ground (arith, h, e))
  | inl (_, e) ↦ elim (Outcome-cases (pam_auth pam pw pwd s vtnr).1) [
    | inr (reason, q) ↦ absurd (ground (arith, h, e, q))
    | inl (env, q) ↦ (
      open_tty-OwnsTty tty e,
      pam_auth-LoggedIn pam pw pwd s vtnr env q,
      λ z. absurd (ground (arith, h, e, q, z)),
    )
  ]
]

-- The child reports what PAM says, in the order of the calls. Then it either reports that it is set
-- up and active, and starts the job, or it reports one more reason and ends. It starts the job only
-- where PAM has said all, in a valid session, on a terminal that it owns, with the user
-- authenticated and the privileges of the daemon given up; otherwise what PAM said is the
-- beginning of what it had to say.
pub child_program_outcome :
    (tty : TtySystem) (pam : PamSystem) (pw : Option Text) (pwd : Account) (s : Settings) (vtnr : ℕ)
    (session : Option Text)
    → (said : List Text) × (((child_program tty pam pw pwd s vtnr session
            ≡ (connect ∷ (map error_exit said ++ setup_done ∷ session_active ∷ []), true))
          × (said ≡ spoken pam pw)
          × IsReady tty pam session)
        ⊎ ((reason : Text) × (child_program tty pam pw pwd s vtnr session
              ≡ (connect ∷ (map error_exit said ++ error_exit reason ∷ []), false))
            × (rest : List Text) × (said ++ rest ≡ spoken pam pw)))
unfolding child_program
child_program_outcome tty pam pw pwd s vtnr session =
    let m = prepared tty pam pw pwd s vtnr session in
    let begins = prepared-Begins tty pam pw pwd s vtnr session in
    (
      m.0,
      elim (Outcome-cases m.1) [
        | inl (_, e) ↦ inl (
          rw (child_program, e) refl,
          rw e at begins,
          prepared-IsReady tty pam pw pwd s vtnr session e,
        )
        | inr (reason, e) ↦
            let (rest, all) = rw e at begins in inr (reason, rw (child_program, e) refl, rest, all)
      ],
    )
