-- ===== src/Server/Life.antt =====
-- server.c and spawnservice.c together: a client and its login tries, from its connection on.
use mathlib.Core.Option
use spawny.Base.{
  ℕ, ◌+◌, ◌-◌, ◌≤◌, ◌<◌, ◌≡◌, refl, sym, subst, Bool, true, false, ◌&&◌, List, [], ◌∷◌, Option,
  none, some, Text, arith, if◌then◌else◌, is_some, not, ◌⊎◌, inl, inr, ◌==◌, Option-cases,
  Bool-cases,
}
use spawny.Spawn.Parent.{End, spawnservice_spawn}
use spawny.Server.{
  Client, Login, Message, hello, greeter_start, unknown, session_activation, login_try, Received,
  failed, closed, garbage, received, System, Action, spawn, client_free, client_goodbye,
  client_is_greeter, safe_call, login, dispatch, client_data, session_done, deliver, store_try,
}

-- The tries that a list of actions starts, where `spawnservice_spawn` succeeds or not.
unfoldable pub starts : Bool → List Action → ℕ
starts ok [] = 0
starts ok (spawn l seat ∷ rest) = (if ok then 1 else 0) + starts ok rest
starts ok (a ∷ rest) = starts ok rest

abbrev pub can_spawn : System → Bool
can_spawn sys = sys.pipe_ok && (sys.tty_found && sys.fork_ok)

-- A client, and the number of its tries whose `_session_done` is still to come.
pub record World : Type 0 where
  pub client : Option Client
  pub tries : ℕ

-- The client sends something, or a try ends that its client still waits for.
pub data Step (w v : World) : Type 0 where
  receive :
      (sys : System) (r : Received) (c : Client) (out : List Action × Option Client)
      → w.client ≡ some c
      → client_data sys c r ≡ some out
      → v ≡ record { client = out.1; tries = w.tries + starts (can_spawn sys) out.0 }
      → Step w v
  finish :
      (seat : Option Text) (end : End) (c : Client)
      → w.client ≡ some c
      → 0 < w.tries
      → v ≡ record { client = (session_done seat c end).1; tries = w.tries - 1 }
      → Step w v

pub data Reach (w : World) : World → Type 0 where
  here : Reach w w
  next : {v u : World} → Reach w v → Step v u → Reach w u

-- At most one try runs, and while it does the client remembers it.
pub record IsServed (w : World) : Type 0 where
  pub at_most_one : w.tries ≤ 1
  pub remembered : (c : Client) → w.client ≡ some c → 0 < w.tries → c.login_runs ≡ true

abbrev pub allowed : Client → ℕ
allowed c = if c.login_runs then 0 else 1

-- What a message may do: start a try only where none is remembered, and forget none.
abbrev Remembers : Client → ℕ → Option Client → Type 0
Remembers c n none = Unit {0}
Remembers c n (some c') =
    (c.login_runs ≡ true → c'.login_runs ≡ true) × (0 < n → c'.login_runs ≡ true)

abbrev Served : Bool → Client → List Action × Option Client → Type 0
Served ok c out = (starts ok out.0 ≤ allowed c) × Remembers c (starts ok out.0) out.1

abbrev ServedIf : Bool → Client → Option (List Action × Option Client) → Type 0
ServedIf ok c none = Unit {0}
ServedIf ok c (some out) = Served ok c out

ServedIf-if :
    (b ok : Bool) (c : Client) (x y : Option (List Action × Option Client))
    → ServedIf ok c x
    → ServedIf ok c y
    → ServedIf ok c (if b then x else y)
ServedIf-if true ok c x y h k = h
ServedIf-if false ok c x y h k = k

Served-if :
    (b ok : Bool) (c : Client) (x y : List Action × Option Client)
    → Served ok c x
    → Served ok c y
    → Served ok c (if b then x else y)
Served-if true ok c x y h k = h
Served-if false ok c x y h k = k

ServedIf-split :
    (b ok : Bool) (c : Client) (x y : Option (List Action × Option Client))
    → (b ≡ true → ServedIf ok c x)
    → (b ≡ false → ServedIf ok c y)
    → ServedIf ok c (if b then x else y)
ServedIf-split true ok c x y h k = h refl
ServedIf-split false ok c x y h k = k refl

gone-Served : (n : ℕ) (c : Client) → n ≡ 0 → (n ≤ allowed c) × Unit {0}
gone-Served n c z = (omega arith, tt)

kept-Served :
    (n : ℕ) (c : Client)
    → n ≡ 0
    → (n ≤ allowed c)
      × ((c.login_runs ≡ true → c.login_runs ≡ true) × (0 < n → c.login_runs ≡ true))
kept-Served n c z = (omega arith, (λ h. h, λ h. absurd (omega arith)))

started-Served :
    (pipe_ok tty_found fork_ok : Bool) (seat : Option Text) (c : Client) (x : Login)
    → c.login_runs ≡ false
    → ServedIf (pipe_ok && (tty_found && fork_ok)) c (
        Option.map
          (λ r. (spawn x seat ∷ r.0, r.1))
          (store_try seat c (spawnservice_spawn pipe_ok tty_found fork_ok)))
unfolding store_try spawnservice_spawn deliver session_done starts
started-Served false tty_found fork_ok seat c x e =
    (omega arith, (λ h. cc, λ h. absurd (omega arith)))
started-Served true false fork_ok seat c x e = (omega arith, (λ h. refl, λ h. refl))
started-Served true true false seat c x e = (omega arith, (λ h. refl, λ h. refl))
started-Served true true true seat c x e = rw e (omega arith, (λ h. refl, λ h. refl))

login-Served :
    (sys : System) (seat : Option Text) (c : Client) (l : Option Login)
    → ServedIf (can_spawn sys) c (login sys seat c l)
unfolding login starts
login-Served sys seat c none =
    ServedIf-split c.login_runs (can_spawn sys) c _ _ (λ e. (omega arith, (λ h. e, λ h. e)))
      (λ e. tt)
login-Served sys seat c (some x) =
    ServedIf-split c.login_runs (can_spawn sys) c _ _ (λ e. (omega arith, (λ h. e, λ h. e)))
      (λ e. started-Served sys.pipe_ok sys.tty_found sys.fork_ok seat c x e)

dispatch-Served :
    (sys : System) (seat : Option Text) (c : Client) (m : Message)
    → ServedIf (can_spawn sys) c (dispatch sys seat c m)
unfolding dispatch client_goodbye client_free safe_call starts
dispatch-Served sys seat c hello =
    Served-if (client_is_greeter sys) (can_spawn sys) c _ _ (kept-Served 0 c refl)
      (gone-Served 0 c refl)
dispatch-Served sys seat c (session_activation id) =
    Served-if (client_is_greeter sys) (can_spawn sys) c _ _
      (Served-if (sys.session_details id) (can_spawn sys) c _ _ (gone-Served 0 c refl)
        (kept-Served 0 c refl))
      (gone-Served 0 c refl)
dispatch-Served sys seat c (login_try l) =
    ServedIf-if (client_is_greeter sys) (can_spawn sys) c _ _ (login-Served sys seat c l)
      (gone-Served 0 c refl)
dispatch-Served sys seat c greeter_start =
    ServedIf-if sys.is_alive (can_spawn sys) c _ _ (gone-Served 0 c refl) (gone-Served 0 c refl)
dispatch-Served sys seat c unknown = kept-Served 0 c refl

client_data-Served :
    (sys : System) (c : Client) (r : Received) → ServedIf (can_spawn sys) c (client_data sys c r)
unfolding client_data client_free starts
client_data-Served sys c failed = tt
client_data-Served sys c closed = gone-Served 0 c refl
client_data-Served sys c garbage = gone-Served 0 c refl
client_data-Served sys c (received m) =
    ServedIf-if (sys.debug && not (is_some sys.seat_get)) (can_spawn sys) c none _ tt
      (dispatch-Served sys sys.seat_get c m)

Served-of :
    (sys : System) (c : Client) (r : Received) (out : List Action × Option Client)
    → client_data sys c r ≡ some out
    → Served (can_spawn sys) c out
Served-of sys c r out e = rw e at (client_data-Served sys c r)

received-IsServed :
    (tries n : ℕ) (c : Client) (after : Option Client)
    → tries ≤ 1
    → (0 < tries → c.login_runs ≡ true)
    → n ≤ allowed c
    → Remembers c n after
    → IsServed (record { client = after; tries = tries + n })
received-IsServed tries n c none one known few keeps = record {
  at_most_one = ground (arith, known);
  remembered = λ d e. cc;
}
received-IsServed tries n c (some c') one known few keeps = record {
  at_most_one = ground (arith, known);
  remembered = λ d e pos. remembers d e pos;
}
  where
    remembers : (d : Client) → some c' ≡ some d → 0 < tries + n → d.login_runs ≡ true
    remembers d e pos =
        let same : c' ≡ d = ground arith in rw (← same) (ground (arith, keeps.0, keeps.1, known))

Step-IsServed : {w v : World} → Step w v → IsServed w → IsServed v
unfolding session_done
Step-IsServed {w} (receive sys r c out present handled after) h =
    let (few, keeps) = Served-of sys c r out handled in
    subst IsServed (sym after) (
      received-IsServed w.tries (starts (can_spawn sys) out.0) c out.1 h.at_most_one
        (h.remembered c present) few keeps)
Step-IsServed {w} (finish seat end c present waits after) h =
    let none_left : w.tries - 1 ≡ 0 = omega (arith, h.at_most_one) in
    subst IsServed (sym after)
      (record { at_most_one = omega arith; remembered = λ d e pos. absurd (omega arith) })

-- Whatever a client sends and however its tries end, at most one try of it runs, and while it does
-- the client remembers it, if this was so before.
pub Reach-IsServed : {w v : World} → IsServed w → Reach w v → IsServed v
Reach-IsServed h here = h
Reach-IsServed h (next r st) = Step-IsServed st (Reach-IsServed h r)

abbrev pub connected : ℕ → ℕ → World
connected fd pid = record {
  client = some (record { fd = fd; pid = pid; login_runs = false });
  tries = 0;
}

connected-IsServed : (fd pid : ℕ) → IsServed (connected fd pid)
connected-IsServed fd pid = record {
  at_most_one = omega arith;
  remembered = λ c e pos. absurd (omega arith);
}

remembered_cases :
    (w : World)
    → IsServed w
    → (w.tries ≡ 0)
      ⊎ (w.client ≡ none)
      ⊎ ((c : Client) × (w.client ≡ some c) × (c.login_runs ≡ true))
remembered_cases w h = elim (Option-cases w.client) [
  | inl gone ↦ inr (inl gone)
  | inr (c, there) ↦ elim (Bool-cases (w.tries == 0)) [
    | inl idle ↦ inl (ground arith)
    | inr runs ↦ inr (inr (c, there, h.remembered c there (ground arith)))
  ]
]

-- From its connection on, whatever a client sends and however its tries end: at most one try of it
-- runs, and while one does the client, unless it is gone, remembers it.
pub one_try :
    (fd pid : ℕ) {w : World}
    → Reach (connected fd pid) w
    → (w.tries ≤ 1)
      × ((w.tries ≡ 0)
          ⊎ (w.client ≡ none)
          ⊎ ((c : Client) × (w.client ≡ some c) × (c.login_runs ≡ true)))
one_try fd pid {w} r =
    let h = Reach-IsServed (connected-IsServed fd pid) r in (h.at_most_one, remembered_cases w h)
