-- ===== src/Examples/Users.antt =====
-- user_db.c at concrete inputs, with a parser of plain .ini texts.
use spawny.Base.{
  ℕ, ◌≡◌, refl, Bool, true, false, List, [], ◌∷◌, ◌++◌, Option, none, some, Text, codes, arith,
  str_eq, ◌==◌, if◌then◌else◌,
}
use spawny.UserDb.{Pair, User, Context, user_pair_remove, user_find, user_field_get}
use spawny.UserDb.Files.{Passwd, Entry, System, write_file, file_of, user_text, load_dir}
use spawny.UserDb.Api.{
  null, live, Db, Store, set_field, user_db_field_set, user_db_field_del, user_db_field_get,
  user_db_init, user_db_shutdown,
}
use spawny.UserDb.Reload.{Tidy, load_dir_find, write_file-Tidy}
use spawny.UserDb.Fields.{Saves, field_set-field_get, field_del-field_get}
use spawny.UserDb.Lifecycle.{inits, shutdowns, shutdowns-inits}

-- Where the parser stands: the section, the name behind which it reads a value, what it read.
pub record Reader : Type 0 where
  pub section : Text
  pub name : Option Text
  pub read : Text

abbrev pub read_char : ℕ → Reader → Reader × List Entry
read_char c r =
    let ended : Reader = record r { name = none; read = [] } in
    let entry : List Entry = elim r.name [
      | none ↦ []
      | some n ↦ record { in_section = r.section; name = n; value = r.read } ∷ []
    ] in
    let named : Bool = elim r.name [ none ↦ false | some n ↦ true ] in
    if c == 10
    then (ended, entry)
    else if named
    then (record r { read = r.read ++ c ∷ [] }, [])
    else if c == b'['
    then (ended, [])
    else if c == b']'
    then (record { section = r.read; name = none; read = [] }, [])
    else if c == b'='
    then (record r { name = some r.read; read = [] }, [])
    else (record r { read = r.read ++ c ∷ [] }, [])

unfoldable pub read_all : Text → Reader → List Entry
read_all [] r = []
read_all (c ∷ cs) r = let (next, entries) = read_char c r in entries ++ read_all cs next

abbrev pub start : Reader
start = record { section = []; name = none; read = [] }

unfoldable pub read_ini : Text → List Entry
unfolding read_all
read_ini content = read_all content start

abbrev pub name : Text
name = codes "ann"

abbrev pub account : Passwd
account = record { pw_name = name; pw_uid = 1000; pw_gid = 1000 }

abbrev pub system : System
system = record {
  passwd = account ∷ [];
  can_list = true;
  uid = 1000;
  can_write = λ f. true;
  can_read = λ f. true;
  can_chown = λ f. true;
  can_chmod = λ f. true;
  can_access_dir = true;
  can_mkpath = true;
  can_chown_dir = true;
  ini_entries = read_ini;
}

abbrev pub icon : Pair
icon = record { value = codes "a.png"; name = codes "icon" }

abbrev shell : Pair
shell = record { value = codes "zsh"; name = codes "shell" }

abbrev kind : Pair
kind = record { value = codes "x11"; name = codes "kind" }

abbrev pub ann : List Pair → User
ann pairs = record { name = name; additional = pairs }

abbrev pub text_icon : Text
text_icon = codes "[identify]\nname=ann\n[info]\nicon=a.png\n"

abbrev text_both : Text
text_both = codes "[identify]\nname=ann\n[info]\nicon=a.png\nshell=zsh\n"

abbrev pub files : List (Text × Text)
files = (codes "ann.ini", text_icon) ∷ []

pub files-Tidy : Tidy system files
unfolding spawny.UserDb.Files.ini_parse_file spawny.UserDb.Files.load_ini_parse read_ini str_eq
files-Tidy = (λ n e. let same : name ≡ n = ground arith in rw (← same) refl, tt)

Saves-both : Saves system (ann (icon ∷ (shell ∷ []))) text_both
unfolding user_text read_ini spawny.UserDb.Files.getpwnam str_eq
Saves-both = record {
  named = omega arith;
  text = refl;
  reads = refl;
  account = refl;
  writable = refl;
  owned = refl;
  moded = refl;
  readable = refl;
}

abbrev db_with : List Pair → List (Text × Text) → Db
db_with pairs fs = record {
  ctx = record { started_uid = 1000; user = ann pairs ∷ []; loaded_from_fs = true; ref = 1 };
  files = some fs;
}

field_set_example :
    (db' : Db) × (user_db_field_set system name
        (codes "shell")
        (codes "zsh")
        (db_with (icon ∷ []) files)
      ≡ some (db', true))
    × ((other : Text)
        → user_db_field_get db'.ctx name other ≡ (
            if str_eq (codes "shell") other
            then some (some (codes "zsh"))
            else user_db_field_get (db_with (icon ∷ []) files).ctx name other))
unfolding set_field spawny.UserDb.user_pair_add user_field_get spawny.UserDb.Files.getpwnam
    user_find str_eq
field_set_example =
    field_set-field_get system name (codes "shell") (codes "zsh") text_both files account
      (ann (icon ∷ [])) (db_with (icon ∷ []) files) refl files-Tidy refl refl refl Saves-both

-- Deleting the first of three pairs loses the second one.
Saves-deleted :
    (past : Pair)
    → Saves system
        (user_pair_remove past (ann (icon ∷ (kind ∷ (shell ∷ [])))) (codes "icon"))
        text_both
unfolding user_pair_remove str_eq
Saves-deleted past = Saves-both

del_example :
    (db' : Db) × (u : User) × (user_db_field_del system kind name
        (codes "icon")
        (db_with (icon ∷ (kind ∷ (shell ∷ []))) files)
      ≡ some (db', true))
    × (user_find name db'.ctx.user ≡ some u)
    × (u.additional ≡ icon ∷ (shell ∷ []))
    × (user_db_field_get db'.ctx name (codes "icon") ≡ some (some (codes "a.png")))
unfolding user_find str_eq
del_example =
    field_del-field_get system kind name (codes "icon") text_both files
      (ann (icon ∷ (kind ∷ (shell ∷ [])))) (db_with (icon ∷ (kind ∷ (shell ∷ []))) files) [] icon
      kind (shell ∷ []) refl files-Tidy refl refl tt refl (Saves-deleted kind)

load_example : user_find name (load_dir system files []) ≡ some (ann (icon ∷ []))
unfolding spawny.UserDb.Files.ini_parse_file spawny.UserDb.Files.load_ini_parse read_ini str_eq
    user_find spawny.UserDb.Reload.file_find spawny.UserDb.Files.getpwnam
load_example =
    load_dir_find system name files [] text_icon (icon ∷ []) (omega arith) files-Tidy refl refl refl
      refl refl

abbrev unloaded : ℕ → Db
unloaded uid = record {
  ctx = record { started_uid = uid; user = []; loaded_from_fs = false; ref = 0 };
  files = none;
}

abbrev nothing_yet : Store
nothing_yet = record { handle = null; files = none }

abbrev root : System
root = record system { uid = 0 }

abbrev first_store : Store
first_store = record {
  handle = live (record { started_uid = 0; user = []; loaded_from_fs = false; ref = 1 });
  files = none;
}

shutdowns_example :
    (last : Store) × (inits root 2 first_store ≡ some last)
    × (shutdowns root 2 last ≡ some first_store)
    × (shutdowns root 3 last ≡ some (record { handle = null; files = none }))
unfolding user_db_init spawny.UserDb.Api.user_db_sync spawny.UserDb.Files.load_from_fs
shutdowns_example = shutdowns-inits root 2 nothing_yet first_store refl refl (omega arith)
