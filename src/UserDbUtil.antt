-- ===== src/UserDbUtil.antt =====
-- sp-user-db-util/user_db_util.c: the options of the program, over the user database.
-- `strtok` is a parameter: the parts of a text between commas. `past` is what stands behind the
-- pairs of a user: see UserDb. A result `none` is undefined behaviour, and a status 1 EXIT_FAILURE.
pub mod Options
use mathlib.Core.Option
use spawny.Base.{
  ℕ, Bool, true, false, not, List, [], ◌∷◌, Option, none, some, Text, codes, str_eq, length, leb,
  ◌==◌, if◌then◌else◌, ◌>>=◌,
}
use spawny.UserDb.{Pair}
use spawny.UserDb.Files.{System}
use spawny.UserDb.Api.{
  live, null, dangling, Db, Store, user_db_init, user_db_shutdown, user_db_user_exists,
  user_db_field_set, user_db_field_del,
}
use spawny.Server.Data.{getpwuid}

abbrev pub max_value : ℕ
max_value = 1048

-- What an argument is compared to, in the order of the code.
pub data Word : Type 0 where
  edit icon prefered_session del help user other : Word

unfoldable pub word : Text → Word
word arg =
    if str_eq arg (codes "--edit")
    then edit
    else if str_eq arg (codes "--icon")
    then icon
    else if str_eq arg (codes "--prefered-session")
    then prefered_session
    else if str_eq arg (codes "--del")
    then del
    else if str_eq arg (codes "--help")
    then help
    else if str_eq arg (codes "--user")
    then user
    else other

-- The argument behind `--user`; behind the last stands NULL, which `strdup` reads.
unfoldable pub named_user : List Text → Option (Option Text)
named_user [] = some none
named_user (arg ∷ []) = if str_eq arg (codes "--user") then none else some none
named_user (arg ∷ next ∷ args) =
    let rest = named_user (next ∷ args) in
    if str_eq arg (codes "--user") then some (some next) else rest

module _ (sys : System) (strtok : Text → List Text) (past : Pair) where
  -- `_field_edit`: `user_db_field_set` refuses a NULL.
  unfoldable pub field_edit : Text → Text → Db → Option (Db × Bool)
  field_edit username arg db =
      let parted : Option (Db × Bool) = elim (strtok arg) [
        | [] ↦ some (db, false)
        | name ∷ values ↦ elim values [
          | [] ↦ some (db, false)
          | value ∷ more ↦ user_db_field_set sys username name value db
        ]
      ] in
      if leb max_value (length arg) then none else parted

  -- One option: `none` for one that ends the program without a change, and what it makes of the
  -- argument behind it, if it takes one.
  unfoldable pub apply : Word → Text → Text → Db → Option (Db × Bool)
  unfolding field_edit
  apply edit username arg db = field_edit username arg db
  apply icon username arg db = user_db_field_set sys username (codes "icon") arg db
  apply prefered_session username arg db =
      user_db_field_set sys username (codes "prefered-session") arg db
  apply del username arg db = user_db_field_del sys past username arg db
  apply help username arg db = some (db, false)
  apply user username arg db = some (db, false)
  apply other username arg db = some (db, false)

  -- An option at the end of the arguments: the argument behind it is NULL, which `strcpy` reads and
  -- the database refuses.
  unfoldable pub last_option : Word → Db → Option (Db × Bool)
  last_option edit db = none
  last_option icon db = some (db, false)
  last_option prefered_session db = some (db, false)
  last_option del db = some (db, false)
  last_option help db = some (db, false)
  last_option user db = some (db, sys.uid == 0)
  last_option other db = some (db, false)

  -- The second loop of `main`: the database, and whether it comes to the end.
  unfoldable pub options : Text → List Text → Db → Option (Db × Bool)
  unfolding apply last_option
  options username [] db = some (db, true)
  options username (arg ∷ []) db = last_option (word arg) db
  options username (arg ∷ next ∷ args) db =
      let skip = options username (next ∷ args) db in
      let is_user : Bool = elim (word arg) [ user ↦ true | _ ↦ false ] in
      let done : Option (Db × Bool) = elim (apply (word arg) username next db) [
        | none ↦ none
        | some (db', false) ↦ some (db', false)
        | some (db', true) ↦ options username args db'
      ] in
      if is_user then (if sys.uid == 0 then skip else some (db, false)) else done

  -- Between `user_db_init` and the end; a process whose user is gone dereferences NULL.
  unfoldable pub main_body : List Text → Db → Option (Db × Bool)
  unfolding named_user options
  main_body args db = do
    named ← if sys.uid == 0 then named_user args else some none
    username ← elim named [
      | none ↦ getpwuid sys.passwd sys.uid >>= λ wd. some wd.pw_name
      | some name ↦ some name
    ]
    let worked = options username args db
    if not (user_db_user_exists db.ctx username) then some (db, false) else worked

  -- `main`: what it leaves, and its status.
  unfoldable pub main : List Text → Store → Option (Store × ℕ)
  unfolding main_body
  main args store = do
    started ← user_db_init sys store
    let opened = started.0
    let worked : Option (Store × ℕ) = elim opened.handle [
      | null ↦ none
      | dangling ↦ none
      | live ctx ↦ do
        (db, ended) ← main_body args (record { ctx = ctx; files = opened.files })
        let left : Store = record { handle = live db.ctx; files = db.files }
        let closed : Option (Store × ℕ) = user_db_shutdown sys left >>= λ s. some (s, 1)
        if ended then closed else some (left, 1)
    ]
    if started.1 then worked else some (opened, 1)
