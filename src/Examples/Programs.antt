-- ===== src/Examples/Programs.antt =====
-- The programs at concrete inputs.
use spawny.Base.{◌≡◌, refl, true, List, [], ◌∷◌, some, Text, codes, arith, str_eq, if◌then◌else◌}
use spawny.UserDb.{Pair}
use spawny.UserDb.Files.{System}
use spawny.UserDb.Fields.{Saves}
use spawny.UserDb.Api.{Db, user_db_field_get}
use spawny.UserDbUtil.{main_body}
use spawny.UserDbUtil.Options.{main_body_prefered_session}
use spawny.Examples.Users.{system, account, read_ini, ann, icon, files, files-Tidy}

abbrev strtok : Text → List Text
strtok text = []

abbrev db : Db
db = record {
  ctx = record { started_uid = 1000; user = ann (icon ∷ []) ∷ []; loaded_from_fs = true; ref = 1 };
  files = some files;
}

abbrev wanted : Pair
wanted = record { value = codes "Xfce"; name = codes "prefered-session" }

abbrev text_wanted : Text
text_wanted = codes "[identify]\nname=ann\n[info]\nicon=a.png\nprefered-session=Xfce\n"

Saves-wanted : Saves system (ann (icon ∷ (wanted ∷ []))) text_wanted
unfolding spawny.UserDb.Files.user_text read_ini spawny.UserDb.Files.getpwnam str_eq
Saves-wanted = record {
  named = omega arith;
  text = refl;
  reads = refl;
  account = refl;
  writable = refl;
  owned = refl;
  moded = refl;
  readable = refl;
}

prefered_example :
    (db' : Db) × (main_body system strtok icon (codes "--prefered-session" ∷ (codes "Xfce" ∷ [])) db
      ≡ some (db', true))
    × ((field : Text)
        → user_db_field_get db'.ctx (codes "ann") field ≡ (
            if str_eq (codes "prefered-session") field
            then some (some (codes "Xfce"))
            else user_db_field_get db.ctx (codes "ann") field))
unfolding spawny.UserDb.Api.set_field spawny.UserDb.user_pair_add spawny.UserDb.user_field_get
    spawny.UserDb.Files.getpwnam spawny.UserDb.user_find str_eq spawny.Server.Data.getpwuid
prefered_example =
    main_body_prefered_session system strtok icon (codes "Xfce") text_wanted files account account
      (ann (icon ∷ [])) db (λ e. cc) refl refl refl refl files-Tidy refl Saves-wanted
