-- ===== src/UserDbUtil/Options.antt =====
-- user_db_util.c and user_db.c: what options do to the database.
use spawny.Base.{
  ◌≡◌, ◌≢◌, refl, true, false, List, [], ◌∷◌, some, Text, codes, arith, str_eq, ◌==◌, Bool-cases,
  inl, inr, if◌then◌else◌,
}
use spawny.UserDb.{Pair, User, user_find}
use spawny.UserDb.Files.{Passwd, System, getpwnam}
use spawny.UserDb.Api.{Db, set_field, user_db_field_get, user_db_user_exists}
use spawny.UserDb.Reload.{Tidy}
use spawny.UserDb.Fields.{Saves, field_set-field_get}
use spawny.Server.Data.{getpwuid}
use spawny.UserDbUtil.{
  other, prefered_session, word, named_user, options, main_body, last_option, apply,
}

module _ (sys : System) (strtok : Text → List Text) (past : Pair) where
  options_other :
      (username name : Text) (rest : List Text) (db : Db)
      → word name ≡ other
      → options sys strtok past username (name ∷ rest) db ≡ some (db, false)
  unfolding options
  options_other username name [] db w = rw (w, last_option)
  options_other username name (next ∷ rest) db w = rw (w, apply)

  -- Started as root with `--user` and a name that is no option itself: whatever stands behind it, the
  -- program ends early and without a change.
  pub main_body_named :
      (name : Text) (rest : List Text) (db : Db)
      → sys.uid ≡ 0
      → word name ≡ other
      → main_body sys strtok past (codes "--user" ∷ (name ∷ rest)) db ≡ some (db, false)
  unfolding main_body named_user word str_eq
  main_body_named name rest db root w =
      rw (main_body, root, word, options_other name name rest db w)
        (elim (Bool-cases (user_db_user_exists db.ctx name)) [ inl e ↦ rw e | inr e ↦ rw e ])

  -- Started by a user that is in the database, with `--prefered-session` and a value, in a tidy
  -- directory and with no obstacle to saving: the program comes to its end, and after it every field
  -- of the user reads as before, but prefered-session, which reads as the value.
  pub main_body_prefered_session :
      (value content : Text) (fs : List (Text × Text)) (wd pw : Passwd) (who : User) (db : Db)
      → sys.uid ≢ 0
      → getpwuid sys.passwd sys.uid ≡ some wd
      → getpwnam sys.passwd wd.pw_name ≡ some pw
      → pw.pw_uid ≡ sys.uid
      → db.files ≡ some fs
      → Tidy sys fs
      → user_find wd.pw_name db.ctx.user ≡ some who
      → Saves sys (set_field sys who (codes "prefered-session") value) content
      → (db' : Db) × (main_body sys strtok past (codes "--prefered-session" ∷ (value ∷ [])) db
          ≡ some (db', true))
        × ((field : Text)
            → user_db_field_get db'.ctx wd.pw_name field ≡ (
                if str_eq (codes "prefered-session") field
                then some (some value)
                else user_db_field_get db.ctx wd.pw_name field))
  unfolding main_body user_db_user_exists user_find word str_eq
  main_body_prefered_session value content fs wd pw who db plain found acc own at t known s =
      let (db', set, reads) =
        field_set-field_get sys wd.pw_name (codes "prefered-session") value content fs pw who db at
          t acc own known s in
      let not_root : (sys.uid == 0) ≡ false = ground (arith, plain) in
      let w : word (codes "--prefered-session") ≡ prefered_session =
        unfold word in unfold str_eq in refl in
      let worked : options sys strtok past wd.pw_name (codes "--prefered-session" ∷ (value ∷ [])) db
          ≡ some (db', true) =
        rw (options, w, apply, set) in
      (db', rw (main_body, not_root, found, worked, user_db_user_exists, known), reads)
