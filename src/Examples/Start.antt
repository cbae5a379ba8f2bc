-- ===== src/Examples/Start.antt =====
-- main.c: the start of the daemon at concrete inputs.
use spawny.Base.{
  suc, ◌≡◌, refl, true, false, List, [], ◌∷◌, map, none, some, codes, str_eq, length, arith,
}
use spawny.Templates.{Template}
use spawny.Templates.Find.{Issued}
use spawny.SpawnRegistry
use spawny.Manager.{watched}
use spawny.Manager.Rounds.{Idle}
use spawny.Desktop.Listed.{listing, declared_all}
use spawny.UserDb.Api.{null, live, Store, user_db_init}
use spawny.Server.Start.{SocketSystem, socket_setup}
use spawny.Daemon.{Config, parse_args}
use spawny.Daemon.Main.{State, Environment, started, main_start, main_shutdown, main_start-started}
use spawny.Examples.Log.{log10, log10-IsLog}
use spawny.Examples.Greeting.{machine}
use spawny.UserDb.Files.{System}
use spawny.Examples.Users.{system, files, ann, icon}

abbrev root_system : System
root_system = record system { uid = 0 }

abbrev sockets : SocketSystem
sockets = record {
  sd_listen_fds = none;
  sd_listen_fds_start = 3;
  sun_path_size = 108;
  dirname = λ path. codes "/run/spawny";
  socket = some 5;
  bind_ok = true;
  listen_ok = true;
}

abbrev env : Environment
env = record {
  uid = 0;
  session = none;
  machine = machine;
  udb = root_system;
  sockets = sockets;
  accept_cb = 300;
}

abbrev debugging : Config
debugging = record { debug = true; no_greeter_restart = false }

abbrev store : Store
store = record { handle = null; files = some files }

abbrev users : Store
users = record {
  handle =
      live
        (record { started_uid = 0; user = ann (icon ∷ []) ∷ []; loaded_from_fs = true; ref = 1 });
  files = some files;
}

users_initialized : user_db_init root_system store ≡ some (users, true)
unfolding user_db_init spawny.UserDb.Api.user_db_sync spawny.UserDb.Files.load_from_fs
    spawny.UserDb.Files.load_dir spawny.Examples.Users.read_ini str_eq
    spawny.UserDb.Files.prepare_db spawny.UserDb.Files.getpwnam spawny.UserDb.user_find
users_initialized = refl

started_example :
    (s : State) × (main_start env (codes "-d" ∷ []) store ≡ some (started s))
    × (ts : List Template) × (s.templates ≡ record { array = some ts; counter = length ts })
    × (map listing ts ≡ declared_all machine)
    × Issued log10 log10-IsLog 0 (length ts) ts
    × (s.greeters ≡ [])
    × (s.waiting ≡ spawny.SpawnRegistry.init)
    × Idle s.manager
    × (watched s.manager.fds ≡ 5 ∷ [])
    × (main_shutdown env (suc (length ts)) s ≡ some (record { handle = null; files = some files }))
unfolding parse_args socket_setup declared_all spawny.Desktop.Listed.declared_by
    spawny.Desktop.Listed.declared_in spawny.Desktop.has_ext spawny.Desktop.parse_ini_verbose
    spawny.Desktop.Keys.last_value str_eq
started_example =
    main_start-started env (codes "-d" ∷ []) debugging log10-IsLog 5 store users refl refl refl
      (omega arith) refl refl users_initialized
