-- ===== src/Server/Watched.antt =====
-- server.c and manager.c together: a client's descriptor is watched as long as the client lives.
use mathlib.Core.Option
use spawny.Base.{
  ℕ, ◌≡◌, ◌⊎◌, refl, ap, ◌∙◌, sym, Bool, true, false, not, ◌&&◌, ◌||◌, ◌==◌, ◌++◌, All, arith,
  Bool-cases, List, [], ◌∷◌, Option, none, some, Text, if◌then◌else◌, is_some, inl, inr,
}
use spawny.Spawn.Parent.{End, spawnservice_spawn}
use spawny.Manager.{Manager, watched, manager_register_fd, manager_unregister_fd}
use spawny.Manager.Watched.{
  watches, watches-others, watches-others_other, watched-manager_unregister_fd,
  watched-manager_register_fd,
}
use spawny.Server.{
  Client, Login, Message, hello, greeter_start, unknown, session_activation, login_try, Received,
  failed, closed, garbage, received, System, Action, unregister_fd, spawn, client_free,
  client_goodbye, client_is_greeter, safe_call, login, dispatch, client_data, session_done, deliver,
  store_try,
}

-- What a list of actions that calls no other part with descriptors does to the manager, as the
-- actions of `_session_done` do not.
unfoldable pub unregister_all : List Action → Manager → Manager
unregister_all [] m = m
unregister_all (unregister_fd fd ∷ rest) m = unregister_all rest (manager_unregister_fd fd m)
unregister_all (a ∷ rest) m = unregister_all rest m

-- The descriptors that the actions unregister.
abbrev unregistered : List Action → List ℕ
unregistered [] = []
unregistered (unregister_fd fd ∷ rest) = fd ∷ unregistered rest
unregistered (a ∷ rest) = unregistered rest

-- The client's own, once or twice, where the client is gone, and none where it is still there.
abbrev Lets : ℕ → List Action × Option Client → Type 0
Lets fd (acts, none) = (unregistered acts ≡ fd ∷ []) ⊎ (unregistered acts ≡ fd ∷ fd ∷ [])
Lets fd (acts, some c) = (unregistered acts ≡ []) × (c.fd ≡ fd)

abbrev LetsIf : ℕ → Option (List Action × Option Client) → Type 0
LetsIf fd none = Unit {0}
LetsIf fd (some out) = Lets fd out

LetsIf-if :
    (b : Bool) (fd : ℕ) (x y : Option (List Action × Option Client))
    → LetsIf fd x
    → LetsIf fd y
    → LetsIf fd (if b then x else y)
LetsIf-if true fd x y h k = h
LetsIf-if false fd x y h k = k

Lets-if :
    (b : Bool) (fd : ℕ) (x y : List Action × Option Client)
    → Lets fd x
    → Lets fd y
    → Lets fd (if b then x else y)
Lets-if true fd x y h k = h
Lets-if false fd x y h k = k

started-Lets :
    (pipe_ok tty_found fork_ok : Bool) (seat : Option Text) (c : Client) (x : Login)
    → LetsIf c.fd (
        Option.map
          (λ r. (spawn x seat ∷ r.0, r.1))
          (store_try seat c (spawnservice_spawn pipe_ok tty_found fork_ok)))
unfolding store_try spawnservice_spawn deliver session_done
started-Lets false tty_found fork_ok seat c x = (refl, refl)
started-Lets true false fork_ok seat c x = (refl, refl)
started-Lets true true false seat c x = (refl, refl)
started-Lets true true true seat c x = (refl, refl)

login-Lets :
    (sys : System) (seat : Option Text) (c : Client) (l : Option Login)
    → LetsIf c.fd (login sys seat c l)
unfolding login
login-Lets sys seat c none = LetsIf-if c.login_runs c.fd _ _ (refl, refl) tt
login-Lets sys seat c (some l) =
    LetsIf-if c.login_runs c.fd _ _ (refl, refl)
      (started-Lets sys.pipe_ok sys.tty_found sys.fork_ok seat c l)

dispatch-Lets :
    (sys : System) (seat : Option Text) (c : Client) (m : Message)
    → LetsIf c.fd (dispatch sys seat c m)
unfolding dispatch client_goodbye client_free safe_call
dispatch-Lets sys seat c hello = Lets-if (client_is_greeter sys) c.fd _ _ (refl, refl) (inl refl)
dispatch-Lets sys seat c (session_activation id) =
    Lets-if (client_is_greeter sys) c.fd _ _
      (Lets-if (sys.session_details id) c.fd _ _ (inl refl) (refl, refl)) (inl refl)
dispatch-Lets sys seat c (login_try l) =
    LetsIf-if (client_is_greeter sys) c.fd _ _ (login-Lets sys seat c l) (inl refl)
dispatch-Lets sys seat c greeter_start = LetsIf-if sys.is_alive c.fd _ _ (inl refl) (inl refl)
dispatch-Lets sys seat c unknown = (refl, refl)

client_data-Lets : (sys : System) (c : Client) (r : Received) → LetsIf c.fd (client_data sys c r)
unfolding client_data client_free
client_data-Lets sys c failed = tt
client_data-Lets sys c closed = inr refl
client_data-Lets sys c garbage = inr refl
client_data-Lets sys c (received m) =
    LetsIf-if (sys.debug && not (is_some sys.seat_get)) c.fd _ _ tt
      (dispatch-Lets sys sys.seat_get c m)

session_done-Lets :
    (seat : Option Text) (c : Client) (end : End) → Lets c.fd (session_done seat c end)
unfolding session_done client_goodbye client_free
session_done-Lets seat c end = Lets-if end.success c.fd _ _ (inl refl) (refl, refl)

-- What another part asks of the manager.
pub data Request : Type 0 where
  -- the descriptor, and the address of the callback
  registers : ℕ → ℕ → Request
  unregisters : ℕ → Request

abbrev pub concerns : Request → ℕ → Bool
concerns (registers x cb) fd = x == fd
concerns (unregisters x) fd = x == fd

unfoldable pub ask : List Request → Manager → Manager
ask [] m = m
ask (registers x cb ∷ rs) m = ask rs (manager_register_fd x cb m)
ask (unregisters x ∷ rs) m = ask rs (manager_unregister_fd x m)

abbrev after_ask : ℕ → List Request → Bool → Bool
after_ask fd [] b = b
after_ask fd (registers x cb ∷ rs) b = after_ask fd rs (b || (x == fd))
after_ask fd (unregisters x ∷ rs) b = after_ask fd rs (if x == fd then false else b)

watches-append : (fd x : ℕ) (ns : List ℕ) → watches fd (ns ++ x ∷ []) ≡ watches fd ns || (x == fd)
unfolding watches
watches-append fd x [] = ground arith
watches-append fd x (n ∷ ns) = ground (arith, watches-append fd x ns)

watches-unregister :
    (fd x : ℕ) (m : Manager)
    → watches fd (watched (manager_unregister_fd x m).fds)
      ≡ (if x == fd then false else watches fd (watched m.fds))
watches-unregister fd x m =
    ap (watches fd) (watched-manager_unregister_fd x m) ∙ elim (Bool-cases (x == fd)) [
      | inl e ↦ let same : x ≡ fd = ground arith in rw (e, same) (watches-others fd (watched m.fds))
      | inr e ↦ rw e (watches-others_other fd x (watched m.fds) (ground arith))
    ]

watches-ask :
    (fd : ℕ) (rs : List Request) (m : Manager)
    → watches fd (watched (ask rs m).fds) ≡ after_ask fd rs (watches fd (watched m.fds))
unfolding ask
watches-ask fd [] m = refl
watches-ask fd (registers x cb ∷ rs) m =
    watches-ask fd rs (manager_register_fd x cb m)
    ∙ ap (after_ask fd rs)
        (ap (watches fd) (watched-manager_register_fd x cb m) ∙ watches-append fd x (watched m.fds))
watches-ask fd (unregisters x ∷ rs) m =
    watches-ask fd rs (manager_unregister_fd x m) ∙ ap (after_ask fd rs) (watches-unregister fd x m)

after_ask_unconcerned :
    (fd : ℕ) (rs : List Request) (b : Bool)
    → All (λ r. concerns r fd ≡ false) rs
    → after_ask fd rs b ≡ b
after_ask_unconcerned fd [] b h = refl
after_ask_unconcerned fd (registers x cb ∷ rs) b h =
    rw (h.0, or_false b) (after_ask_unconcerned fd rs b h.1)
  where
    or_false : (b : Bool) → b || false ≡ b
    or_false true = refl
    or_false false = refl
after_ask_unconcerned fd (unregisters x ∷ rs) b h = rw h.0 (after_ask_unconcerned fd rs b h.1)

-- The actions in order on the manager, with what each of the others asks of it.
module _ (asks : Action → List Request) where
  unfoldable pub perform : List Action → Manager → Manager
  unfolding ask
  perform [] m = m
  perform (unregister_fd fd ∷ rest) m = perform rest (manager_unregister_fd fd m)
  perform (a ∷ rest) m = perform rest (ask (asks a) m)

  -- What the other parts ask for, without the server's own calls.
  unfoldable pub requested : List Action → Manager → Manager
  unfolding ask
  requested [] m = m
  requested (unregister_fd fd ∷ rest) m = requested rest m
  requested (a ∷ rest) m = requested rest (ask (asks a) m)

  abbrev left : ℕ → List ℕ → Bool → Bool
  left fd [] b = b
  left fd (x ∷ xs) b = left fd xs (if x == fd then false else b)

  perform_own :
      (fd : ℕ)
      → ((a : Action) → All (λ r. concerns r fd ≡ false) (asks a))
      → (acts : List Action) (m : Manager)
      → watches fd (watched (perform acts m).fds)
        ≡ left fd (unregistered acts) (watches fd (watched m.fds))
  unfolding perform
  perform_own fd apart [] m = refl
  perform_own fd apart (unregister_fd x ∷ rest) m =
      perform_own fd apart rest (manager_unregister_fd x m)
      ∙ ap (left fd (unregistered rest)) (watches-unregister fd x m)
  perform_own fd apart (a ∷ rest) m =
      perform_own fd apart rest (ask (asks a) m)
      ∙ ap (left fd (unregistered rest))
          (watches-ask fd (asks a) m ∙ after_ask_unconcerned fd (asks a) _ (apart a))

  perform_others :
      (fd other : ℕ)
      → (fd == other) ≡ false
      → (acts : List Action) (m n : Manager) → All (λ x. x ≡ fd) (unregistered acts)
      → watches other (watched m.fds) ≡ watches other (watched n.fds)
      → watches other (watched (perform acts m).fds)
        ≡ watches other (watched (requested acts n).fds)
  unfolding perform requested
  perform_others fd other ne [] m n own same = same
  perform_others fd other ne (unregister_fd x ∷ rest) m n own same =
      let away : (x == other) ≡ false = rw own.0 ne in
      perform_others fd other ne rest (manager_unregister_fd x m) n own.1
        (watches-unregister other x m ∙ rw away same)
  perform_others fd other ne (a ∷ rest) m n own same =
      perform_others fd other ne rest (ask (asks a) m) (ask (asks a) n) own (
        watches-ask other (asks a) m
        ∙ ap (after_ask other (asks a)) same
        ∙ sym (watches-ask other (asks a) n))

  -- The client's descriptor is watched no more where the client is gone, and as before where it is
  -- still there, with the descriptor that it had; another one is watched where the requests of the
  -- other parts alone leave it watched.
  abbrev pub IsWatched : ℕ → ℕ → Manager → List Action × Option Client → Type 0
  IsWatched fd other m (acts, none) =
      (watches fd (watched (perform acts m).fds) ≡ false)
      × (watches other (watched (perform acts m).fds)
          ≡ watches other (watched (requested acts m).fds))
  IsWatched fd other m (acts, some c) =
      (watches fd (watched (perform acts m).fds) ≡ watches fd (watched m.fds))
      × (c.fd ≡ fd)
      × (watches other (watched (perform acts m).fds)
          ≡ watches other (watched (requested acts m).fds))

  Lets-IsWatched :
      (fd other : ℕ) (m : Manager) (out : List Action × Option Client)
      → ((a : Action) → All (λ r. concerns r fd ≡ false) (asks a))
      → (fd == other) ≡ false
      → Lets fd out
      → IsWatched fd other m out
  Lets-IsWatched fd other m (acts, some c) apart ne h = (
    perform_own fd apart acts m ∙ rw h.0 refl,
    h.1,
    perform_others fd other ne acts m m (rw h.0 tt) refl,
  )
  Lets-IsWatched fd other m (acts, none) apart ne (inl h) =
      let self : (fd == fd) ≡ true = ground arith in
      (
        perform_own fd apart acts m ∙ rw (h, self) refl,
        perform_others fd other ne acts m m (rw h (refl, tt)) refl,
      )
  Lets-IsWatched fd other m (acts, none) apart ne (inr h) =
      let self : (fd == fd) ≡ true = ground arith in
      (
        perform_own fd apart acts m ∙ rw (h, self) refl,
        perform_others fd other ne acts m m (rw h (refl, (refl, tt))) refl,
      )

  -- Whatever the manager has registered, while it reads descriptors or not, and whatever the other
  -- parts, such as `spawnservice_spawn` and `greeter_activate`, register and unregister when they are
  -- called, which are other descriptors than the client's: after a message of a client that was
  -- handled, and after the end of one of its tries, the client's descriptor is watched no more if the
  -- client is gone; otherwise it keeps its descriptor, and that is watched as before. Any other
  -- descriptor is watched exactly where the requests of the other parts alone leave it watched.
  pub client_data-IsWatched :
      (sys : System) (c : Client) (r : Received) (out : List Action × Option Client)
      (seat : Option Text) (end : End) (m : Manager) (other : ℕ)
      → ((a : Action) → All (λ q. concerns q c.fd ≡ false) (asks a))
      → (c.fd == other) ≡ false
      → client_data sys c r ≡ some out
      → IsWatched c.fd other m out × IsWatched c.fd other m (session_done seat c end)
  client_data-IsWatched sys c r out seat end m other apart ne e = (
    Lets-IsWatched c.fd other m out apart ne (rw e at (client_data-Lets sys c r)),
    Lets-IsWatched c.fd other m _ apart ne (session_done-Lets seat c end),
  )
