-- ===== src/UserDb/Fields.antt =====
-- user_db.c: `user_db_field_set` and `user_db_field_del` seen through `user_db_field_get`.
use spawny.Base.{
  ◌<◌, ◌≡◌, refl, ◌∙◌, true, List, [], ◌∷◌, ◌++◌, Option, none, some, Text, str_eq, arith, length,
  if◌then◌else◌, is_some, str_eq_refl, str_eq_iff, Bool-cases, Option-cases, inl, inr, ==_refl,
}
use spawny.UserDb.{
  User, Pair, Context, user_find, user_field_get, user_pair_add, user_pair_remove, write_value,
  user_list_free,
}
use spawny.UserDb.Files.{
  System, Passwd, getpwnam, write_file, file_of, put_user, user_text, load_from_fs, load_dir,
}
use spawny.UserDb.Api.{
  Db, put_and_reload, set_field, user_db_field_set, user_db_field_del, user_db_field_get,
}
use spawny.UserDb.Reload.{
  Tidy, declared, user_entries, parse-user_entries, load_dir_find, file_find-write_file,
  write_file-Tidy,
}
use spawny.UserDb.Remove.{user_pair_remove_hit, Absent}

-- Nothing of the system stands in the way of saving the user as this text, and inih reads the
-- entries of the text back.
pub record Saves (sys : System) (user : User) (content : Text) : Type 0 where
  pub named : 0 < length user.name
  pub text : user_text user ≡ some content
  pub reads : sys.ini_entries content ≡ user_entries sys user
  pub account : is_some (getpwnam sys.passwd user.name) ≡ true
  pub writable : sys.can_write (file_of user.name) ≡ true
  pub owned : sys.can_chown (file_of user.name) ≡ true
  pub moded : sys.can_chmod (file_of user.name) ≡ true
  pub readable : sys.can_read (file_of user.name) ≡ true

user_find_name :
    (name : Text) (us : List User) (u : User) → user_find name us ≡ some u → u.name ≡ name
unfolding user_find
user_find_name name [] u h = cc
user_find_name name (v ∷ us) u h = elim (Bool-cases (str_eq v.name name)) [
  | inl e ↦ let same : v ≡ u = ground arith in rw (← same) ((str_eq_iff v.name name).0 e)
  | inr e ↦ user_find_name name us u (ground arith)
]

user_field_get-append :
    (ps : List Pair) (p : Pair) (g : Text)
    → user_field_get ps p.name ≡ none
    → user_field_get (ps ++ p ∷ []) g ≡ (if str_eq p.name g then some p else user_field_get ps g)
unfolding user_field_get
user_field_get-append [] p g h = refl
user_field_get-append (q ∷ ps) p g h = ground (
  arith,
  user_field_get-append ps p g,
  str_eq_iff q.name g,
  str_eq_iff p.name g,
  str_eq_iff q.name p.name,
)

user_field_get-write_value :
    (ps : List Pair) (f v g : Text) (q : Pair)
    → user_field_get ps f ≡ some q
    → user_field_get (write_value ps f v) g
      ≡ (if str_eq f g then some (record { value = v; name = f }) else user_field_get ps g)
unfolding user_field_get write_value
user_field_get-write_value [] f v g q h = cc
user_field_get-write_value (p ∷ ps) f v g q h = ground (
  arith,
  user_field_get-write_value ps f v g q,
  str_eq_iff p.name g,
  str_eq_iff f g,
  str_eq_iff p.name f,
)

value_of : Option Pair → Option Text
value_of none = none
value_of (some p) = some p.value

field_get_found :
    (ctx : Context) (name field : Text) (u : User)
    → user_find name ctx.user ≡ some u
    → user_db_field_get ctx name field ≡ some (value_of (user_field_get u.additional field))
unfolding user_db_field_get value_of
field_get_found ctx name field u h = ground arith

first_found :
    (before : List Pair) (p : Pair) (behind : List Pair) (field : Text)
    → Absent field before
    → str_eq p.name field ≡ true
    → user_field_get (before ++ p ∷ behind) field ≡ some p
unfolding user_field_get
first_found [] p behind field h e = rw e
first_found (b ∷ before) p behind field h e = rw h.0 (first_found before p behind field h.1 e)

module _ (sys : System) where
  set_field-name : (user : User) (f v : Text) → (set_field sys user f v).name ≡ user.name
  unfolding set_field user_pair_add
  set_field-name user f v = ground arith

  -- Setting a field in a user changes what is found under its own name only, where the new value
  -- is found.
  pub user_field_get-set_field :
      (user : User) (f v g : Text)
      → user_field_get (set_field sys user f v).additional g ≡ (
          if str_eq f g
          then some (record { value = v; name = f })
          else user_field_get user.additional g)
  unfolding set_field user_pair_add
  user_field_get-set_field user f v g = elim (Option-cases (user_field_get user.additional f)) [
    | inl e ↦
        rw (e, set_field)
          (user_field_get-append user.additional (record { value = v; name = f }) g e)
    | inr (q, e) ↦ rw (e, set_field) (user_field_get-write_value user.additional f v g q e)
  ]

  pub put_user-Saves :
      (user : User) (content : Text) (fs : List (Text × Text))
      → Saves sys user content
      → put_user sys user (some fs) ≡ some (some (write_file (file_of user.name) content fs), true)
  unfolding put_user
  put_user-Saves user content fs s = ground (arith, s.text, s.account, s.writable, s.owned, s.moded)

  pub declared_saved :
      (user : User) (content : Text)
      → Saves sys user content
      → declared sys content ≡ (some user.name, user.additional)
  declared_saved user content s = rw s.reads (parse-user_entries sys user)

  -- In a tidy directory, saving a user that meets no obstacle and loading the directory again
  -- finds that user, as saved, and writes only the user's own file.
  pub put_and_reload_find :
      (user : User) (content : Text) (fs : List (Text × Text)) (db : Db)
      → db.files ≡ some fs
      → Tidy sys fs
      → Saves sys user content
      → (db' : Db) × (put_and_reload sys user db ≡ some (db', true))
        × (user_find user.name db'.ctx.user ≡ some user)
        × (db'.files ≡ some (write_file (file_of user.name) content fs))
  unfolding put_and_reload load_from_fs user_list_free
  put_and_reload_find user content fs db at t s =
      let fs' = write_file (file_of user.name) content fs in
      let d = declared_saved user content s in
      (
        record {
          ctx = record db.ctx { user = load_dir sys fs' []; loaded_from_fs = true };
          files = some fs';
        },
        rw (at, put_user-Saves user content fs s),
        load_dir_find sys user.name fs' [] content user.additional s.named
            (write_file-Tidy sys user.name content fs (rw d) t) (unfold user_find in refl)
            (file_find-write_file (file_of user.name) (file_of user.name) content fs
              ∙ rw (str_eq_refl (file_of user.name)))
            d s.account s.readable,
        refl,
      )

  set_field_read :
      (ctx' ctx : Context) (user : User) (name field value other : Text)
      → user_find name ctx'.user ≡ some (set_field sys user field value)
      → user_find name ctx.user ≡ some user
      → user_db_field_get ctx' name other
        ≡ (if str_eq field other then some (some value) else user_db_field_get ctx name other)
  unfolding value_of
  set_field_read ctx' ctx user name field value other h k = ground (
    arith,
    field_get_found ctx' name other (set_field sys user field value) h,
    field_get_found ctx name other user k,
    user_field_get-set_field user field value other,
  )

  -- Where the account owns the name, the user is in the table, the directory is tidy and saving
  -- the changed user meets no obstacle: `user_db_field_set` succeeds, and after it every field
  -- reads as before, but the one that was set, which reads as the new value.
  pub field_set-field_get :
      (name field value content : Text) (fs : List (Text × Text)) (pw : Passwd) (user : User)
      (db : Db)
      → db.files ≡ some fs
      → Tidy sys fs
      → getpwnam sys.passwd name ≡ some pw
      → pw.pw_uid ≡ sys.uid
      → user_find name db.ctx.user ≡ some user
      → Saves sys (set_field sys user field value) content
      → (db' : Db) × (user_db_field_set sys name field value db ≡ some (db', true))
        × ((other : Text)
            → user_db_field_get db'.ctx name other ≡ (
                if str_eq field other
                then some (some value)
                else user_db_field_get db.ctx name other))
  unfolding user_db_field_set
  field_set-field_get name field value content fs pw user db at t acc own found s =
      let edited = set_field sys user field value in
      let same : edited.name ≡ name =
        set_field-name user field value ∙ user_find_name name db.ctx.user user found in
      let (db', saved, finds, _) = put_and_reload_find edited content fs db at t s in
      let finds' : user_find name db'.ctx.user ≡ some edited = rw (← same) finds in
      (
        db',
        rw (acc, own, ==_refl sys.uid, found) saved,
        λ other. set_field_read db'.ctx db.ctx user name field value other finds' found,
      )

  user_pair_remove-name :
      (past : Pair) (user : User) (field : Text)
      → (user_pair_remove past user field).name ≡ user.name
  unfolding user_pair_remove
  user_pair_remove-name past user field = ground arith

  -- Deleting a field that has another one behind it, in a tidy directory and with no obstacle to
  -- saving, succeeds, leaves the field readable with its value, and loses the pair behind it.
  pub field_del-field_get :
      (past : Pair) (name field content : Text) (fs : List (Text × Text)) (user : User) (db : Db)
      (before : List Pair) (p q : Pair) (behind : List Pair)
      → db.files ≡ some fs
      → Tidy sys fs
      → user_find name db.ctx.user ≡ some user
      → user.additional ≡ before ++ p ∷ (q ∷ behind)
      → Absent field before
      → str_eq p.name field ≡ true
      → Saves sys (user_pair_remove past user field) content
      → (db' : Db) × (u : User) × (user_db_field_del sys past name field db ≡ some (db', true))
        × (user_find name db'.ctx.user ≡ some u)
        × (u.additional ≡ before ++ p ∷ behind)
        × (user_db_field_get db'.ctx name field ≡ some (some p.value))
  unfolding user_db_field_del
  field_del-field_get past name field content fs user db before p q behind at t found w absent e s =
      let edited = user_pair_remove past user field in
      let same : edited.name ≡ name =
        user_pair_remove-name past user field ∙ user_find_name name db.ctx.user user found in
      let (db', saved, finds, _) = put_and_reload_find edited content fs db at t s in
      let finds' : user_find name db'.ctx.user ≡ some edited = rw (← same) finds in
      let left = user_pair_remove_hit past user field before p (q ∷ behind) w absent e in
      (
        db',
        edited,
        rw found saved,
        finds',
        left,
        field_get_found db'.ctx name field edited finds'
            ∙ rw (left, first_found before p behind field absent e) (unfold value_of in refl),
      )
