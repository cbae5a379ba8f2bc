-- ===== src/Daemon.antt =====
-- sp-daemon/main.c: the arguments and the checks of the start, and server.c's restart of a greeter,
-- which hands the same arguments on.
pub mod Mode
pub mod Main
use mathlib.Core.Option
use spawny.Base.{
  ℕ, Bool, true, false, not, ◌&&◌, ◌||◌, List, [], ◌∷◌, Option, none, some, Text, codes, str_eq,
  ◌==◌, if◌then◌else◌, is_some,
}
use spawny.Client.Read.{Service, Incoming, sp_client_greeter_start}

pub record Config : Type 0 where
  pub debug : Bool
  pub no_greeter_restart : Bool

-- The loop of `_parse_args`, over the arguments behind the first; `none` exits.
unfoldable pub parse_loop : List Text → Config → Option Config
parse_loop [] config = some config
parse_loop (arg ∷ args) config =
    let debug = parse_loop args (record config { debug = true }) in
    let no_restart = parse_loop args (record config { no_greeter_restart = true }) in
    if str_eq arg (codes "--debug") || str_eq arg (codes "-d")
    then debug
    else if str_eq arg (codes "--no-greeter-restart")
    then no_restart
    else none

unfoldable pub parse_args : List Text → Option Config
unfolding parse_loop
parse_args args = parse_loop args (record { debug = false; no_greeter_restart = false })

-- `init_check`: whether it comes back.
unfoldable pub init_check : ℕ → Option Text → Bool
init_check uid session = if not (uid == 0) then false else not (is_some session)

-- `_reexecute_greeter`: the answer of the start, if it is made.
unfoldable pub reexecute_greeter : Config → List Text → Service → Incoming → Option Bool
reexecute_greeter config args service answer =
    if not config.no_greeter_restart
    then some (sp_client_greeter_start service args answer)
    else none
