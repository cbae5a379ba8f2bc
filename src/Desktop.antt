-- ===== src/Desktop.antt =====
-- sp-daemon/desktop_common.c, tty_temp.c, x11_temp.c and wl_temp.c: where the daemon's templates come
-- from. The .ini parser (inih), the directories and the addresses of copied strings are parameters.
pub mod Listed
pub mod Keys
pub mod Ext
pub mod FireUp
use mathlib.Core.Option
use spawny.Base.{
  ℕ, ◌+◌, ◌-◌, Bool, true, false, not, ◌&&◌, List, [], ◌∷◌, ◌++◌, Option, none, some, Text, codes,
  str_eq, length, drop, if◌then◌else◌, is_some, ◌>>=◌,
}
use spawny.UserDb.Files.{Entry}
use spawny.Templates.{Registry, template_register}

-- What `ini_parse` returns: 0, -1, -2 or the number of a line.
pub data Parsed : Type 0 where
  parsed not_opened no_memory : Parsed
  error_on : ℕ → Parsed

-- The calls of the handler that `ini_parse` makes for a file, and what it returns.
pub record Ini : Type 0 where
  pub entries : List Entry
  pub result : Parsed

-- An entry of a directory: its name, and the bytes of the `struct dirent` in front of it.
pub record Dirent : Type 0 where
  pub before : Text
  pub d_name : Text

pub record Session : Type 0 where
  pub name : Option Text
  pub exec : Option Text
  pub icon : Option Text

-- `_parse_file_handler`; the answer is 1, always.
unfoldable pub parse_file_handler : Session → Entry → Session × Bool
parse_file_handler session e =
    if str_eq e.name (codes "Name")
    then (record session { name = some e.value }, true)
    else if str_eq e.name (codes "Exec")
    then (record session { exec = some e.value }, true)
    else if str_eq e.name (codes "Icon")
    then (record session { icon = some e.value }, true)
    else (session, true)

unfoldable pub handle_all : Session → List Entry → Session
unfolding parse_file_handler
handle_all session [] = session
handle_all session (e ∷ es) = handle_all (parse_file_handler session e).0 es

unfoldable pub parse_ini_verbose : Parsed → Bool
parse_ini_verbose parsed = true
parse_ini_verbose not_opened = false
parse_ini_verbose no_memory = false
parse_ini_verbose (error_on line) = false

abbrev pub no_session : Session
no_session = record { name = none; exec = none; icon = none }

-- `!strcmp (dir->d_name + len - sizeof (EXT) + 1, EXT)`: for a name of fewer than 8 bytes it reads
-- in front of the name.
unfoldable pub has_ext : Dirent → Bool
has_ext d =
    str_eq (drop (length d.before + length d.d_name - 8) (d.before ++ d.d_name)) (codes ".desktop")

-- What the daemon meets when it starts.
pub record Machine : Type 0 where
  pub log10 : ℕ → ℕ
  pub opendir : Text → Option (List Dirent)
  pub ini_parse : Text → Ini
  -- where `strdup` puts a string
  pub strdup : Text → ℕ
  pub tty_fire_up : ℕ
  pub x11_fire_up : ℕ
  pub wl_fire_up : ℕ

module _ (m : Machine) where
  -- `_parse_file`; `none` is undefined behaviour of the registration.
  unfoldable pub parse_file : Text → Text → ℕ → Registry → Option Registry
  unfolding handle_all parse_ini_verbose
  parse_file file type fire_up r =
      let ini = m.ini_parse file in
      let session = handle_all no_session ini.entries in
      let reg = is_some session.name && is_some session.exec in
      let exec : ℕ = elim session.exec [ none ↦ 0 | some e ↦ m.strdup e ] in
      let registered =
        template_register m.log10 session.name session.icon type (some fire_up) exec r in
      if not (parse_ini_verbose ini.result)
      then some r
      else if reg
      then (registered >>= λ s. some s.0)
      else some r

  unfoldable pub parse_entries : Text → Text → ℕ → List Dirent → Registry → Option Registry
  unfolding parse_file has_ext
  parse_entries path type fire_up [] r = some r
  parse_entries path type fire_up (d ∷ ds) r =
      (if has_ext d then parse_file (path ++ (b'/' ∷ d.d_name)) type fire_up r else some r) >>= λ s.
      parse_entries path type fire_up ds s

  unfoldable pub parse_dir : Text → Text → ℕ → Registry → Option Registry
  unfolding parse_entries
  parse_dir path type fire_up r = elim (m.opendir path) [
    | none ↦ some r
    | some ds ↦ parse_entries path type fire_up ds r
  ]

  unfoldable pub tty_template_init : Registry → Option Registry
  tty_template_init r =
      template_register m.log10 (some (codes "tty")) (some (codes "utilities-terminal"))
        (codes "tty") (some m.tty_fire_up) 0 r
      >>= λ s. some s.0

  unfoldable pub x11_template_init : Registry → Option Registry
  unfolding parse_dir
  x11_template_init r =
      parse_dir (codes "/usr/share/xsessions/") (codes "x11") m.x11_fire_up r >>= λ s.
      parse_dir (codes "/usr/local/share/xsessions/") (codes "x11") m.x11_fire_up s

  unfoldable pub wl_template_init : Registry → Option Registry
  unfolding parse_dir
  wl_template_init r =
      parse_dir (codes "/usr/share/wayland-sessions/") (codes "wayland") m.wl_fire_up r >>= λ s.
      parse_dir (codes "/usr/local/share/wayland-sessions/") (codes "wayland") m.wl_fire_up s

  -- main.c, in this order
  unfoldable pub templates_init : Registry → Option Registry
  unfolding tty_template_init x11_template_init wl_template_init
  templates_init r = tty_template_init r >>= λ s. x11_template_init s >>= λ t. wl_template_init t
