-- ===== src/Server.antt =====
-- sp-daemon/server.c: what `_client_data` does with one message of a client.
-- The answers of the other parts are a parameter. What is called is a list of actions, in order, and
-- the client after it is `none` once it is freed. A result `none` is undefined behaviour of server.c
-- itself; whether a call that is made faults is said by the part that is called, as
-- `Greeter.greeter_lockout` does for a NULL seat.
pub mod Data
pub mod Access
pub mod Life
pub mod Locked
pub mod Watched
pub mod Start
use mathlib.Core.Option
use spawny.Spawn.Parent.{End, Returned, null, address, spawnservice_spawn}
use spawny.Base.{
  ℕ, Bool, true, false, not, ◌&&◌, ◌||◌, List, [], ◌∷◌, ◌++◌, Option, none, some, Text, codes,
  if◌then◌else◌, is_some,
}

pub record Client : Type 0 where
  pub fd : ℕ
  pub pid : ℕ
  -- `try` is not NULL
  pub login_runs : Bool

pub record Login : Type 0 where
  pub user : Text
  pub password : Text
  pub template_id : Text

-- greeter.proto
pub data Message : Type 0 where
  hello greeter_start unknown : Message
  session_activation : Option Text → Message
  login_try : Option Login → Message

-- `read` returned -1, or 0, or bytes that are no message, or a message.
pub data Received : Type 0 where
  failed closed garbage : Received
  received : Message → Received

pub record System : Type 0 where
  pub debug : Bool
  -- `greeter_exists_sid` of the client's session id
  pub exists_sid : Bool
  pub seat_get : Option Text
  pub session_details : Option Text → Bool
  -- `kill (pid, 0)`
  pub is_alive : Bool
  -- what `spawnservice_spawn` needs: a pipe, a terminal and a process
  pub pipe_ok : Bool
  pub tty_found : Bool
  pub fork_ok : Bool

pub data Action : Type 0 where
  unregister_fd close_fd : ℕ → Action
  free_client : Action
  send_data : Option Text → Action
  send_leave : Action
  -- success, and the message
  feedback : Bool → Option Text → Action
  session_activate : Option Text → Action
  greeter_lockout : Option Text → Action
  greeter_activate : Text → Action
  spawn : Login → Option Text → Action

abbrev pub fallback_seat : Text
fallback_seat = codes "seat0"

unfoldable pub client_free : Client → List Action
client_free c = unregister_fd c.fd ∷ (close_fd c.fd ∷ (free_client ∷ []))

unfoldable pub client_goodbye : Client → List Action
unfolding client_free
client_goodbye c = send_leave ∷ client_free c

unfoldable pub client_is_greeter : System → Bool
client_is_greeter sys = sys.debug || sys.exists_sid

-- `SAFE_CALL` and what stands behind it.
unfoldable pub safe_call :
    System → Client → List Action × Option Client → List Action × Option Client
unfolding client_is_greeter client_free
safe_call sys c behind = if client_is_greeter sys then behind else (client_free c, none)

-- `_session_done`
unfoldable pub session_done : Option Text → Client → End → List Action × Option Client
unfolding client_goodbye client_free
session_done seat c end =
    if end.success
    then (
      greeter_lockout seat
          ∷ (feedback true (some (codes "You are logged in!"))
              ∷ client_goodbye (record c { login_runs = false })),
      none,
    )
    else (feedback false end.message ∷ [], some (record c { login_runs = false }))

-- The calls of `_session_done` that come before `spawnservice_spawn` returns.
unfoldable pub deliver : Option Text → List End → Client → List Action × Option Client
unfolding session_done
deliver seat [] c = ([], some c)
deliver seat (end ∷ ends) c =
    let told = session_done seat c end in
    elim told.1 [
      | none ↦ (told.0, none)
      | some c' ↦ (told.0 ++ (deliver seat ends c').0, (deliver seat ends c').1)
    ]

-- `client->try = spawnservice_spawn (…)` and the test behind it: what comes back is stored, NULL or
-- the address of a try that may be freed.
unfoldable pub store_try : Option Text → Client → Returned → Option (List Action × Option Client)
unfolding deliver
store_try seat c null =
    some
      (feedback false (some (codes "spawn failed.")) ∷ [], some (record c { login_runs = false }))
store_try seat c (address t) =
    let told = deliver seat t.done_calls c in
    elim told.1 [ none ↦ none | some c' ↦ some (told.0, some (record c' { login_runs = true })) ]

-- The case of a login, behind `SAFE_CALL`; a message without its part `login` is dereferenced. The
-- answer of `template_details_get` is not read.
unfoldable pub login :
    System → Option Text → Client → Option Login → Option (List Action × Option Client)
unfolding store_try
login sys seat c l =
    let returned = spawnservice_spawn sys.pipe_ok sys.tty_found sys.fork_ok in
    let started : Option (List Action × Option Client) = elim l [
      | none ↦ none
      | some x ↦ Option.map (λ r. (spawn x seat ∷ r.0, r.1)) (store_try seat c returned)
    ] in
    if c.login_runs
    then some (feedback false (some (codes "There is already a login try!")) ∷ [], some c)
    else started

-- The switch over the type of the message.
unfoldable pub dispatch :
    System → Option Text → Client → Message → Option (List Action × Option Client)
unfolding safe_call login client_goodbye client_free client_is_greeter
dispatch sys seat c hello = some (safe_call sys c (send_data seat ∷ [], some c))
dispatch sys seat c (session_activation id) =
    let absent : List Action × Option Client =
      (feedback false (some (codes "Session not found")) ∷ [], some c) in
    let found : List Action × Option Client = (
      session_activate id
          ∷ (feedback false (some (codes "Activation is called on this session"))
              ∷ (greeter_lockout seat ∷ client_goodbye c)),
      none,
    ) in
    some (safe_call sys c (if sys.session_details id then found else absent))
dispatch sys seat c (login_try l) =
    if client_is_greeter sys then login sys seat c l else some (client_free c, none)
dispatch sys seat c greeter_start =
    let start : Text = elim seat [ none ↦ fallback_seat | some s ↦ s ] in
    if sys.is_alive
    then some (greeter_activate start ∷ client_goodbye c, none)
    else some (client_free c, none)
dispatch sys seat c unknown = some ([], some c)

-- `_client_data`. A length of -1 makes the message be read far behind `buf`. In debugging mode a
-- missing seat is a string literal, which is freed at the end.
unfoldable pub client_data : System → Client → Received → Option (List Action × Option Client)
unfolding dispatch client_free
client_data sys c failed = none
client_data sys c closed = some (unregister_fd c.fd ∷ client_free c, none)
client_data sys c garbage = some (unregister_fd c.fd ∷ client_free c, none)
client_data sys c (received m) =
    let handled = dispatch sys sys.seat_get c m in
    if sys.debug && not (is_some sys.seat_get) then none else handled
