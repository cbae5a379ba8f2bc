-- ===== src/Login.antt =====
-- spawnservice.c and server.c together: what the owner of a try is told of the child that it
-- started, and what the client is told. Each message of the child is read on its own, and a child
-- may die at any point of its messages.
pub mod Registered
pub mod Restart
use spawny.Base.{
  ℕ, zero, suc, ◌≡◌, ◌≢◌, ◌⊎◌, inl, inr, refl, ◌∙◌, Bool, true, false, not, ◌&&◌, sym, is_some, leb,
  List, [], ◌∷◌, ◌++◌, map, take, Option, none, some, Text, codes, arith, Bool-cases, if◌then◌else◌,
}
use spawny.Spawn.Child.{
  Message, connect, setup_done, session_active, error_exit, TtySystem, Account, Settings, PamSystem,
}
use spawny.Spawn.Pam.{child_program}
use spawny.Spawn.ChildLaws.{IsReady, spoken, child_program_outcome}
use spawny.Spawn.Parent.{End, Event, message, disappear, verdict, run, started, run-verdict}
use spawny.Server.{
  Client, free_client, send_leave, feedback, greeter_lockout, session_done, unregister_fd, close_fd,
  client_goodbye, client_free,
}

-- The first `n` messages reach the daemon, with what `session_get` finds, and then the child dies.
abbrev pub life : Option Text → ℕ → List Message → List Event
life found n ms = map (λ m. message m found) (take n ms) ++ disappear ∷ []

active_verdict :
    (found : Option Text) (n : ℕ)
    → verdict true none (life found n (connect ∷ setup_done ∷ session_active ∷ []))
      ≡ record { success = leb 3 n; message = none } ∷ []
active_verdict found zero = refl
active_verdict found (suc zero) = refl
active_verdict found (suc (suc zero)) = refl
active_verdict found (suc (suc (suc n))) =
    let e : leb 3 (suc (suc (suc n))) ≡ true = ground arith in rw e

-- A pipe that is not read any more.
closed_verdict :
    (found err : Option Text) (n : ℕ) (ms : List Message)
    → verdict false err (life found n ms) ≡ record { success = false; message = err } ∷ []
closed_verdict found err zero ms = refl
closed_verdict found err (suc n) [] = refl
closed_verdict found err (suc n) (m ∷ ms) = closed_verdict found err n ms

failed_verdict :
    (found : Option Text) (reason : Text) (ms : List Message) (n : ℕ)
    → verdict true none (life found n (connect ∷ error_exit reason ∷ ms))
      ≡ record { success = false; message = if leb 2 n then some reason else none } ∷ []
failed_verdict found reason ms zero = refl
failed_verdict found reason ms (suc zero) = refl
failed_verdict found reason ms (suc (suc n)) =
    let e : leb 2 (suc (suc n)) ≡ true = ground arith in
    rw e (closed_verdict found (some reason) n ms)

if_same {ℓ} : {A : Type ℓ} (b : Bool) (x : A) → (if b then x else x) ≡ x
if_same true x = refl
if_same false x = refl

-- The first reason that is reported among the messages.
abbrev pub reported : List Message → Option Text
reported [] = none
reported (error_exit reason ∷ ms) = some reason
reported (connect ∷ ms) = reported ms
reported (setup_done ∷ ms) = reported ms
reported (session_active ∷ ms) = reported ms

-- What the owner of the try, a client on a seat, makes of a child that sent these messages and
-- started its job or not, and of which `n` messages arrived: it is told once. If the child started its
-- job, all was read and nothing was reported, the terminal is the child's, the session is valid, the
-- user is authenticated, the privileges are given up, and PAM had nothing to say. The greeter of the
-- seat is locked out then, and the client is told so, dismissed and freed; otherwise it is told of a
-- failure.
abbrev pub Told :
    TtySystem
    → PamSystem
    → Option Text
    → Option Text
    → Option Text
    → ℕ
    → Text
    → Client
    → List Message × Bool
    → Type 0
Told tty pam pw session found n seat c child =
    (end : End) × ((run (life found n child.0) started).done_calls ≡ end ∷ [])
    × (((child.1 && (leb 3 n && not (is_some (reported child.0))) ≡ true)
          × IsReady tty pam session
          × (spoken pam pw ≡ [])
          × (session_done (some seat) c end ≡ (
            greeter_lockout (some seat)
                ∷ feedback true (some (codes "You are logged in!"))
                ∷ send_leave
                ∷ unregister_fd c.fd
                ∷ close_fd c.fd
                ∷ free_client
                ∷ [],
            none,
          )))
        ⊎ ((child.1 && (leb 3 n && not (is_some (reported child.0))) ≡ false)
            × (session_done (some seat) c end ≡ (
              feedback false (if leb 2 n then reported child.0 else none) ∷ [],
              some (record c { login_runs = false }),
            ))))

module _ (tty : TtySystem) (pam : PamSystem) (pw session found : Option Text) (n : ℕ) (seat : Text)
    (c : Client) where
  Told-reported :
      (reason : Text) (ms : List Message) (job : Bool)
      → Told tty pam pw session found n seat c (connect ∷ error_exit reason ∷ ms, job)
  unfolding session_done
  Told-reported reason ms job =
      let told = run-verdict (life found n (connect ∷ error_exit reason ∷ ms)) in
      let silence : job && (leb 3 n && false) ≡ false = never job (leb 3 n) in
      (_, told ∙ failed_verdict found reason ms n, inr (silence, refl))
    where
      never : (a b : Bool) → a && (b && false) ≡ false
      never true true = refl
      never true false = refl
      never false b = refl

  Told-active :
      IsReady tty pam session
      → spoken pam pw ≡ []
      → Told tty pam pw session found n seat c (connect ∷ setup_done ∷ session_active ∷ [], true)
  unfolding session_done client_goodbye client_free
  Told-active ready quiet =
      let told = run-verdict (life found n (connect ∷ setup_done ∷ session_active ∷ [])) in
      (
        record { success = leb 3 n; message = none },
        told ∙ active_verdict found n,
        elim (Bool-cases (leb 3 n)) [
          | inl q ↦ inl (rw q, ready, quiet, rw q)
          | inr q ↦ inr (rw q, rw (q, if_same {A = Option Text} (leb 2 n) none))
        ],
      )

-- A try of a client on a seat, on whatever terminal and with whatever answers of PAM, whose child
-- dies at any point: its owner is told exactly once. If the child started its job, all three
-- messages arrived and PAM reported nothing, then the terminal is the child's, the session is
-- valid, the user is authenticated and the privileges are given up; the greeter of the seat is
-- locked out, and the client is told so, dismissed and freed. Otherwise, and so where PAM had
-- anything to say before the job was started, the client is told of a failure, with the first
-- reason that was reported if that arrived, and may try again.
pub run-child_program-session_done :
    (tty : TtySystem) (pam : PamSystem) (pw : Option Text) (pwd : Account) (s : Settings) (vtnr : ℕ)
    (session found : Option Text) (n : ℕ) (seat : Text) (c : Client)
    → Told tty pam pw session found n seat c (child_program tty pam pw pwd s vtnr session)
run-child_program-session_done tty pam pw pwd s vtnr session found n seat c =
    split (child_program_outcome tty pam pw pwd s vtnr session)
  where
    split :
        (said : List Text) × (((child_program tty pam pw pwd s vtnr session
                ≡ (connect ∷ (map error_exit said ++ setup_done ∷ session_active ∷ []), true))
              × (said ≡ spoken pam pw)
              × IsReady tty pam session)
            ⊎ ((reason : Text) × (child_program tty pam pw pwd s vtnr session
                  ≡ (connect ∷ (map error_exit said ++ error_exit reason ∷ []), false))
                × (rest : List Text) × (said ++ rest ≡ spoken pam pw)))
        → Told tty pam pw session found n seat c (child_program tty pam pw pwd s vtnr session)
    split ([], inl (e, all, ready)) =
        rw e (Told-active tty pam pw session found n seat c ready (sym all))
    split ([], inr (reason, e, rest, all)) =
        rw e (Told-reported tty pam pw session found n seat c reason [] false)
    split (r ∷ said, inl (e, all, ready)) =
        rw e (Told-reported tty pam pw session found n seat c r _ true)
    split (r ∷ said, inr (reason, e, rest, all)) =
        rw e (Told-reported tty pam pw session found n seat c r _ false)
