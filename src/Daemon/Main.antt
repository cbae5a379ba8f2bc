-- ===== src/Daemon/Main.antt =====
-- main.c: the start of the daemon up to its first round, and its end.
use spawny.Base.{
  ℕ, suc, ◌^◌, ◌≤◌, ◌≡◌, refl, true, false, not, List, [], ◌∷◌, map, Option, none, some, Text,
  length, arith, if◌then◌else◌, ◌>>=◌,
}
use spawny.Templates.{Template, Registry, init, template_shutdown}
use spawny.Templates.Ids.{IsLog}
use spawny.Templates.Find.{Issued}
use spawny.Templates.Laws.{template_shutdown_ends}
use spawny.SpawnRegistry
use spawny.Greeter.{SeatGreeter}
use spawny.Manager.{Manager, watched, manager_register_fd}
use spawny.Manager.Rounds.{Idle}
use spawny.Desktop.{Machine, templates_init}
use spawny.Desktop.Listed.{listing, declared_all, templates_init-declared}
use spawny.UserDb.{Context}
use spawny.UserDb.Api.{null, Store, user_db_init, user_db_shutdown}
use spawny.Server.Start.{SocketSystem, socket_setup, server_init, server_shutdown}
use spawny.Daemon.{Config, parse_args, init_check}

-- The file-scope variables of the daemon's files.
pub record State : Type 0 where
  pub config : Config
  pub manager : Manager
  pub greeters : List SeatGreeter
  pub waiting : spawny.SpawnRegistry.Registry
  pub templates : Registry
  pub users : Store

pub record Environment : Type 0 where
  pub uid : ℕ
  -- `current_session_get`
  pub session : Option Text
  pub machine : Machine
  pub udb : spawny.UserDb.Files.System
  pub sockets : SocketSystem
  -- the address of `_accept_ready`
  pub accept_cb : ℕ

-- The process ends, or comes to `manager_run`.
pub data Start : Type 0 where
  ends : Start
  started : State → Start

-- `manager_init`
abbrev pub manager_init : Manager
manager_init = record { fds = []; stop = false; changes = 0; readout = false }

-- `main` up to `manager_run`.
unfoldable pub main_start : Environment → List Text → Store → Option Start
main_start env args store = elim (parse_args args) [
  | none ↦ some ends
  | some config ↦
      let checked : Option Start = (do
        templates ← templates_init env.machine init
        (users, manager, ready) ←
            server_init env.udb env.accept_cb config.debug env.sockets store manager_init
        some (
            if not ready
            then ends
            else started (record {
              config = config;
              manager = manager;
              greeters = [];
              waiting = spawny.SpawnRegistry.init;
              templates = templates;
              users = users;
            }))) in
      if not (init_check env.uid env.session) then some ends else checked
]

-- `main` behind `manager_run`, with fuel for `template_shutdown`: the user database that it leaves.
unfoldable pub main_shutdown : Environment → ℕ → State → Option Store
main_shutdown env fuel s = do
  users ← server_shutdown env.udb s.users
  done ← template_shutdown fuel s.templates
  some users

shutdown-init :
    (udb : spawny.UserDb.Files.System) (store users : Store)
    → store.handle ≡ null
    → user_db_init udb store ≡ some (users, true)
    → user_db_shutdown udb users ≡ some (record { handle = null; files = users.files })
unfolding user_db_init user_db_shutdown
shutdown-init udb store users fresh db = ground arith

-- With arguments that are accepted, as root and in no session, with a logarithm as documented, at most
-- 2 ^ 31 declared templates, a socket that can be set up and a user database that can be
-- initialized: the daemon comes to its first round with the declared templates and valid ids, no
-- greeter, nothing to wait for, and its socket alone in a manager that is ready for a round; from
-- there the shutdown ends, with a round for each template and one more, and frees the database.
pub main_start-started :
    (env : Environment) (args : List Text) (config : Config) (law : IsLog env.machine.log10)
    (sock : ℕ) (store users : Store)
    → parse_args args ≡ some config
    → env.uid ≡ 0
    → env.session ≡ none
    → length (declared_all env.machine) ≤ 2 ^ 31
    → (socket_setup config.debug env.sockets).1 ≡ some sock
    → store.handle ≡ null
    → user_db_init env.udb store ≡ some (users, true)
    → (s : State) × (main_start env args store ≡ some (started s))
      × (ts : List Template) × (s.templates ≡ record { array = some ts; counter = length ts })
      × (map listing ts ≡ declared_all env.machine)
      × Issued env.machine.log10 law 0 (length ts) ts
      × (s.greeters ≡ [])
      × (s.waiting ≡ spawny.SpawnRegistry.init)
      × Idle s.manager
      × (watched s.manager.fds ≡ sock ∷ [])
      × (main_shutdown env (suc (length ts)) s
          ≡ some (record { handle = null; files = users.files }))
unfolding main_start server_init main_shutdown server_shutdown init_check manager_register_fd
    watched
main_start-started env args config law sock store users parse root free fits setup fresh db =
    let (ts, e, ls, v) = templates_init-declared env.machine law fits in
    let s : State = record {
      config = config;
      manager = manager_register_fd sock env.accept_cb manager_init;
      greeters = [];
      waiting = spawny.SpawnRegistry.init;
      templates = record { array = some ts; counter = length ts };
      users = users;
    } in
    (
      s,
      rw (main_start, parse, root, free, server_init, setup, db, e),
      ts,
      refl,
      ls,
      v,
      refl,
      refl,
      record { all_live = refl; distinct = (tt, tt); no_changes = refl; not_reading = refl },
      refl,
      rw (
        main_shutdown,
        server_shutdown,
        shutdown-init env.udb store users fresh db,
        template_shutdown_ends ts (length ts),
      ),
    )
