-- ===== src/Server/Start.antt =====
-- server.c, server_systemd.c and socket_creation.c: the socket of the daemon, its clients as they
-- are accepted, and the start and the end of the server. The system calls are parameters: what each
-- one answers, -1 as `none` or false.
use mathlib.Core.Option
use spawny.Base.{
  ℕ, ◌-◌, Bool, true, false, not, List, [], ◌∷◌, ◌++◌, Option, none, some, Text, codes, take, ◌==◌,
  if◌then◌else◌, ◌>>=◌,
}
use spawny.Manager.{Manager, manager_register_fd}
use spawny.UserDb.Api.{Store, user_db_init, user_db_shutdown}
use spawny.Server.{Client}

-- meson.build
unfoldable pub sp_service_path_get : Bool → Text
sp_service_path_get debug =
    if debug then codes "/run/spawny/spawny-debug.service" else codes "/run/spawny/spawny.service"

-- `sun_path` of `sp_service_address_setup`, an array of `size` bytes.
unfoldable pub sp_service_address_setup : ℕ → Bool → Text
sp_service_address_setup size debug = take (size - 1) (sp_service_path_get debug)

pub record SocketSystem : Type 0 where
  -- `sd_listen_fds` and SD_LISTEN_FDS_START
  pub sd_listen_fds : Option ℕ
  pub sd_listen_fds_start : ℕ
  pub sun_path_size : ℕ
  pub dirname : Text → Text
  pub socket : Option ℕ
  -- `bind` fails where there is no socket
  pub bind_ok : Bool
  pub listen_ok : Bool

-- What is done to the files and the socket.
pub data Setup : Type 0 where
  mkpath unlink : Text → Setup
  bind : ℕ → Text → Setup
  listen : ℕ → Setup
  chmod : Text → Setup

unfoldable pub prefetch_server_socket : SocketSystem → ℕ
prefetch_server_socket sys = elim sys.sd_listen_fds [
  | none ↦ 0
  | some n ↦ if n == 0 then 0 else if not (n == 1) then 0 else sys.sd_listen_fds_start
]

-- `mkdirpath`
abbrev pub mkdirpath : SocketSystem → Text → Setup
mkdirpath sys path = mkpath (sys.dirname path)

-- `_socket_setup`: what is done, and the socket, if it returns 1.
unfoldable pub socket_setup : Bool → SocketSystem → List Setup × Option ℕ
unfolding prefetch_server_socket sp_service_path_get sp_service_address_setup
socket_setup debug sys =
    let path = sp_service_path_get debug in
    let before = mkdirpath sys path ∷ unlink path ∷ [] in
    let bound : List Setup × Option ℕ = elim sys.socket [
      | none ↦ (before, none)
      | some sock ↦
          let tried = before ++ bind sock (sp_service_address_setup sys.sun_path_size debug) ∷ [] in
          if not sys.bind_ok
          then (tried, none)
          else if not sys.listen_ok
          then (tried ++ listen sock ∷ [], none)
          else (tried ++ listen sock ∷ chmod path ∷ [], some sock)
    ] in
    let prefetched = prefetch_server_socket sys in
    if prefetched == 0 then bound else ([], some prefetched)

-- `client_connect`; without its credentials the client is freed.
unfoldable pub client_connect : ℕ → Option ℕ → Option Client
client_connect fd peer = Option.map (λ pid. record { fd = fd; pid = pid; login_runs = false }) peer

-- `_accept_ready`, where `accept` gives a descriptor. `data_cb` is the address of `_client_data`.
unfoldable pub accept_ready : ℕ → ℕ → Option ℕ → Manager → Manager × Option Client
unfolding client_connect
accept_ready data_cb fd peer m = elim (client_connect fd peer) [
  | none ↦ (m, none)
  | some client ↦ (manager_register_fd client.fd data_cb m, some client)
]

-- `server_init`: what `user_db_init` answers is not read. `accept_cb` is the address of
-- `_accept_ready`.
unfoldable pub server_init :
    spawny.UserDb.Files.System
    → ℕ
    → Bool
    → SocketSystem
    → Store
    → Manager
    → Option (Store × Manager × Bool)
unfolding socket_setup
server_init udb accept_cb debug sys store m = elim (socket_setup debug sys).1 [
  | none ↦ some (store, m, false)
  | some sock ↦
      user_db_init udb store >>= λ r. some (r.0, manager_register_fd sock accept_cb m, true)
]

-- `server_shutdown`, but for the closing of the socket and the removal of its path.
unfoldable pub server_shutdown : spawny.UserDb.Files.System → Store → Option Store
server_shutdown udb store = user_db_shutdown udb store
