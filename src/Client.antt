-- ===== src/Client.antt =====
-- libsp_client/client.c: the greeter's copy of the daemon's data, and the requests that name an
-- element of it by its index.
-- A `char *` that may be NULL is an option; `none` as a result of a conversion is undefined
-- behaviour, `strcmp` on NULL.
pub mod Fill
pub mod Data
pub mod Total
pub mod Read
use mathlib.Core.Option
use spawny.Base.{
  ℕ, zero, suc, ◌+◌, ◌-◌, Bool, true, false, List, [], ◌∷◌, ◌++◌, map, Option, none, some, Text,
  codes, str_eq, length, take, get_elem?, ltb, if◌then◌else◌, ◌>>=◌,
}

-- The messages of server.proto.
pub record ProtoTemplate : Type 0 where
  pub id : Option Text
  pub name : Option Text
  pub icon : Option Text

pub record ProtoSession : Type 0 where
  pub id : Option Text
  pub user : Option Text
  pub name : Option Text
  pub icon : Option Text

pub record ProtoUser : Type 0 where
  pub uid : ℕ
  pub name : Option Text
  pub icon : Option Text
  pub prefered_session : Option Text

pub record ServerData : Type 0 where
  pub templates : List ProtoTemplate
  pub sessions : List ProtoSession
  pub users : List ProtoUser

-- Sp_Client.h
pub record Template : Type 0 where
  pub id : ℕ
  pub icon : Option Text
  pub name : Option Text

pub record Session : Type 0 where
  pub id : ℕ
  pub icon : Option Text
  pub user : Option Text
  pub name : Option Text

pub record User : Type 0 where
  pub id : ℕ
  pub icon : Option Text
  pub name : Option Text
  pub prefered_session : ℕ

pub record PrivateSession : Type 0 where
  pub session_id : Option Text
  pub id : ℕ

pub record PrivateTemplate : Type 0 where
  pub template_id : Option Text
  pub id : ℕ

pub record Context : Type 0 where
  pub sessions : List Session
  pub private_sessions : List PrivateSession
  pub templates : List Template
  pub private_templates : List PrivateTemplate
  pub users : List User

-- `STRDUP_S (n, v)`: with `n` NULL the field keeps what it held.
abbrev pub strdup_s : Option Text → Option Text → Option Text
strdup_s none old = old
strdup_s (some n) old = some n

-- `_find_simular_session` from template number `i` on; 0 when no name fits.
unfoldable pub find_simular_session : Option Text → ℕ → List Template → Option ℕ
find_simular_session prefered i [] = some 0
find_simular_session prefered i (t ∷ ts) =
    let rest = find_simular_session prefered (i + 1) ts in
    let compared : Option ℕ =
      prefered >>= λ p. t.name >>= λ n. (if str_eq p n then some i else rest) in
    compared

abbrev pub template_free : Template → Template
template_free t = record t { name = none; icon = none }

abbrev pub template_convert : ProtoTemplate → Template → ℕ → Option Template
template_convert proto t i =
    some (record { id = i; icon = strdup_s proto.icon t.icon; name = strdup_s proto.name t.name })

abbrev pub session_free : Session → Session
session_free s = record s { icon = none; name = none; user = none }

abbrev pub session_convert : ProtoSession → Session → ℕ → Option Session
session_convert proto s i = some (record {
  id = i;
  icon = strdup_s proto.icon s.icon;
  name = strdup_s proto.name s.name;
  user = strdup_s proto.user s.user;
})

abbrev pub user_free : User → User
user_free u = record u { icon = none; name = none }

abbrev pub user_convert : List Template → ProtoUser → User → ℕ → Option User
user_convert templates proto u i = find_simular_session proto.prefered_session 0 templates >>= λ p.
    some (record {
      id = i;
      icon = strdup_s proto.icon u.icon;
      name = strdup_s proto.name u.name;
      prefered_session = p;
    })

abbrev pub private_session_free : PrivateSession → PrivateSession
private_session_free s = record s { session_id = none }

abbrev pub private_session_convert : ProtoSession → PrivateSession → ℕ → Option PrivateSession
private_session_convert proto s i =
    some (record { id = i; session_id = strdup_s proto.id s.session_id })

abbrev pub private_template_free : PrivateTemplate → PrivateTemplate
private_template_free t = record t { template_id = none }

abbrev pub private_template_convert : ProtoTemplate → PrivateTemplate → ℕ → Option PrivateTemplate
private_template_convert proto t i =
    some (record { id = i; template_id = strdup_s proto.id t.template_id })

-- `_fill_array`. `zeroed` is an element of zero bytes: `memset` makes the elements that `realloc`
-- adds such ones.
module _ {ℓ κ} {T : Type ℓ} {P : Type κ} (ff : T → T) (zeroed : T) (cf : P → T → ℕ → Option T) where
  unfoldable pub resize : List T → List P → List T
  resize array [] = []
  resize [] (p ∷ ps) = zeroed ∷ resize [] ps
  resize (t ∷ array) (p ∷ ps) = t ∷ resize array ps

  unfoldable pub convert_loop : ℕ → List P → List T → Option (List T)
  convert_loop i [] array = some []
  convert_loop i (p ∷ ps) [] = none
  convert_loop i (p ∷ ps) (t ∷ array) =
      cf p t i >>= λ t'. convert_loop (i + 1) ps array >>= λ rest. some (t' ∷ rest)

  unfoldable pub fill_array : List T → List P → Option (List T)
  unfolding resize convert_loop
  fill_array array ps = convert_loop 0 ps (resize (map ff array) ps)

abbrev pub zero_template : Template
zero_template = record { id = 0; icon = none; name = none }

abbrev pub zero_session : Session
zero_session = record { id = 0; icon = none; user = none; name = none }

abbrev pub zero_user : User
zero_user = record { id = 0; icon = none; name = none; prefered_session = 0 }

abbrev pub zero_private_session : PrivateSession
zero_private_session = record { session_id = none; id = 0 }

abbrev pub zero_private_template : PrivateTemplate
zero_private_template = record { template_id = none; id = 0 }

-- `_data_convert`: the users are converted with the new templates in place.
unfoldable pub data_convert : Context → ServerData → Option Context
data_convert ctx d = do
  ts ← fill_array template_free zero_template template_convert ctx.templates d.templates
  ss ← fill_array session_free zero_session session_convert ctx.sessions d.sessions
  us ← fill_array user_free zero_user (user_convert ts) ctx.users d.users
  ps ←
      fill_array private_session_free zero_private_session private_session_convert
        ctx.private_sessions d.sessions
  pt ←
      fill_array private_template_free zero_private_template private_template_convert
        ctx.private_templates d.templates
  some (record {
    templates = ts;
    sessions = ss;
    users = us;
    private_sessions = ps;
    private_templates = pt;
  })

-- An `int` of the caller.
pub data ℤ : Type 0 where
  pos : ℕ → ℤ
  negsuc : ℕ → ℤ

-- greeter.proto
pub data Request : Type 0 where
  hello greeter_start : Request
  login_try : Option Text → Option Text → Option Text → Request
  session_activation : Option Text → Request

-- The request that is written; `none` is the answer false, with nothing written.
unfoldable pub sp_client_login : Context → Option Text → Option Text → ℤ → Option Request
sp_client_login ctx usr pw (negsuc n) = none
sp_client_login ctx usr pw (pos n) =
    get_elem? ctx.private_templates n >>= λ pt. some (login_try usr pw pt.template_id)

unfoldable pub sp_client_session_activate : Context → ℤ → Option Request
sp_client_session_activate ctx (negsuc n) = none
sp_client_session_activate ctx (pos n) =
    get_elem? ctx.private_sessions n >>= λ ps. some (session_activation ps.session_id)
