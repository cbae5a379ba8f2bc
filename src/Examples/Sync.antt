-- ===== src/Examples/Sync.antt =====
-- user_db.c: synchronizing the database with the accounts, at concrete inputs.
use spawny.Base.{
  not, ◌||◌, ◌≡◌, refl, true, false, [], ◌∷◌, some, Text, codes, str_eq, arith, is_some,
}
use spawny.UserDb.{User, user_find}
use spawny.UserDb.Files.{System, Passwd, user_text, getpwnam, load_dir}
use spawny.UserDb.Api.{Db, user_db_sync}
use spawny.UserDb.Fields.{Saves}
use spawny.UserDb.Sync.{bare, among, synced, Writable, accounts, user_db_sync-synced}
use spawny.Examples.Users.{system, account, files, files-Tidy, read_ini, ann, icon}

abbrev spawny_account : Passwd
spawny_account = record { pw_name = codes "spawny"; pw_uid = 990; pw_gid = 990 }

abbrev root : System
root = record system { passwd = account ∷ spawny_account ∷ []; uid = 0 }

abbrev unloaded : Db
unloaded = record {
  ctx = record { started_uid = 0; user = []; loaded_from_fs = false; ref = 0 };
  files = some files;
}

Saves-spawny : Saves root (bare (codes "spawny")) (codes "[identify]\nname=spawny\n[info]\n")
unfolding user_text read_ini getpwnam str_eq
Saves-spawny = record {
  named = omega arith;
  text = refl;
  reads = refl;
  account = refl;
  writable = refl;
  owned = refl;
  moded = refl;
  readable = refl;
}

ann_found : (u : User) × (user_find (codes "ann") (load_dir root files []) ≡ some u)
unfolding user_find load_dir read_ini getpwnam str_eq
ann_found = (ann (icon ∷ []), refl)

files-Writable : Writable root (load_dir root files []) (accounts root)
files-Writable = (
  λ e. let (u, found) = ann_found in absurd (cc),
  ((λ e. (codes "[identify]\nname=spawny\n[info]\n", Saves-spawny)), tt),
)

sync_example :
    (db' : Db) × (user_db_sync root unloaded ≡ some (db', true))
    × ((n : Text)
        → user_find n db'.ctx.user ≡ synced root (load_dir root files []) (accounts root) files n)
    × ((n : Text) → not (among n (accounts root)) || is_some (user_find n db'.ctx.user) ≡ true)
unfolding getpwnam str_eq spawny.UserDb.Files.ini_parse_file
sync_example =
    user_db_sync-synced root unloaded files refl refl refl refl refl refl refl refl files-Tidy
      files-Writable
