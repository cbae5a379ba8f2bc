-- ===== src/Client/Read.antt =====
-- client.c: what `sp_client_read` does with a message of the daemon, and how a client connects.
use spawny.Base.{
  ℕ, Bool, true, false, ◌||◌, List, [], ◌∷◌, Option, none, some, Text, codes, str_eq, ltb, leb,
  if◌then◌else◌, ◌>>=◌,
}
use spawny.Client.{ServerData, Context, Template, Session, User, data_convert}

pub record Feedback : Type 0 where
  pub success : Bool
  pub msg : Option Text

-- server.proto; a part may be missing in a message of any type.
pub data ServerMessage : Type 0 where
  leave unknown : ServerMessage
  data_update : Option ServerData → ServerMessage
  login_feedback : Option Feedback → ServerMessage

-- `read` returned less than 1, or bytes that are no message, or a message.
pub data Incoming : Type 0 where
  failed garbage : Incoming
  message : ServerMessage → Incoming

pub data ReadResult : Type 0 where
  success failure exit : ReadResult

-- Whether the callbacks are set.
pub record Interface : Type 0 where
  pub data_cb : Bool
  pub feedback_cb : Bool

-- A callback that is made.
pub data Call : Type 0 where
  data_cb : Call
  feedback_cb : Feedback → Call

unfoldable pub interface_check : Option Interface → Bool
interface_check none = false
interface_check (some i) = if i.feedback_cb then i.data_cb else false

abbrev pub max_msg_size : ℕ
max_msg_size = 4096

-- What one `read` into `buf` makes of a message of `size` bytes that waits. `cut` is protobuf-c on the
-- first bytes of a longer one.
unfoldable pub receive : (ℕ → ServerMessage → Incoming) → ℕ → ServerMessage → Incoming
receive cut size m = if leb size max_msg_size then message m else cut max_msg_size m

-- The switch over the type; a missing part is dereferenced.
unfoldable pub dispatch : Context → ServerMessage → Option (Context × List Call × ReadResult)
dispatch ctx leave = some (ctx, [], exit)
dispatch ctx (data_update payload) = do
  d ← payload
  ctx' ← data_convert ctx d
  some (ctx', data_cb ∷ [], success)
dispatch ctx (login_feedback feedback) = feedback >>= λ f. some (ctx, feedback_cb f ∷ [], success)
dispatch ctx unknown = some (ctx, [], success)

-- `sp_client_read` of a context that is not NULL.
unfoldable pub sp_client_read :
    Context → Option Interface → Incoming → Option (Context × List Call × ReadResult)
unfolding interface_check dispatch
sp_client_read ctx interface failed = some (ctx, [], failure)
sp_client_read ctx interface garbage = some (ctx, [], failure)
sp_client_read ctx interface (message m) =
    if interface_check interface then dispatch ctx m else some (ctx, [], failure)

-- `_parse_args`: the arguments behind the first.
unfoldable pub parse_args : List Text → Bool → Bool
parse_args [] debug = debug
parse_args (arg ∷ args) debug =
    parse_args args
      (if str_eq arg (codes "--debug") || str_eq arg (codes "-d") then true else debug)

-- What a connection meets: the descriptor of `sp_service_connect` for the mode, if any, and whether
-- the first message is written.
pub record Service : Type 0 where
  pub connect : Bool → Option ℕ
  pub written : Bool

pub record Connection : Type 0 where
  pub debug : Bool
  pub server_sock : ℕ

-- `sp_client_init`: the context, and the descriptors that are closed.
unfoldable pub sp_client_init : Service → List Text → Option Connection × List ℕ
unfolding parse_args
sp_client_init s args =
    let debug = parse_args args false in
    elim (s.connect debug) [
      | none ↦ (none, [])
      | some sock ↦
          if s.written
          then (some (record { debug = debug; server_sock = sock }), [])
          else (none, if ltb 0 sock then sock ∷ [] else [])
    ]

-- `sp_client_greeter_start`: the answer to the one message that is read.
unfoldable pub sp_client_greeter_start : Service → List Text → Incoming → Bool
unfolding parse_args
sp_client_greeter_start s args incoming =
    let answered : Bool = elim incoming [
      | failed ↦ false
      | garbage ↦ false
      | message m ↦ elim m [
        | leave ↦ true
        | unknown ↦ false
        | data_update d ↦ false
        | login_feedback f ↦ false
      ]
    ] in
    elim (s.connect (parse_args args false)) [ none ↦ false | some sock ↦ answered ]

-- `sp_client_data_get`
unfoldable pub sp_client_data_get : Context → List Session × List Template × List User
sp_client_data_get ctx = (ctx.sessions, ctx.templates, ctx.users)
