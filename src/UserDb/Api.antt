-- ===== src/UserDb/Api.antt =====
-- user_db.c: the functions of user_db.h.
use mathlib.Core.Option
use spawny.Base.{
  ◌^◌, ◌+◌, ◌-◌, Bool, true, false, not, ◌&&◌, List, [], ◌∷◌, map, Option, none, some, Text, ◌==◌,
  if◌then◌else◌, is_some, ◌>>=◌,
}
use spawny.UserDb.{
  User, Pair, Context, user_find, user_field_get, user_pair_add, user_pair_remove, user_list_free,
  write_value, update_user,
}
use spawny.UserDb.Files.{System, Files, getpwnam, put_user, load_from_fs, prepare_db, list_users}

-- The static `ctx`: NULL, a context, or the address of one that was freed.
pub data Handle : Type 0 where
  null : Handle
  live : Context → Handle
  dangling : Handle

pub record Db : Type 0 where
  pub ctx : Context
  pub files : Files

pub record Store : Type 0 where
  pub handle : Handle
  pub files : Files

-- `user_db_user_exists` behind its NULL check.
unfoldable pub user_db_user_exists : Context → Text → Bool
user_db_user_exists ctx name = is_some (user_find name ctx.user)

-- `user_db_field_get` dereferences the user that it did not find.
unfoldable pub user_db_field_get : Context → Text → Text → Option (Option Text)
user_db_field_get ctx name field = do
  user ← user_find name ctx.user
  elim (user_field_get user.additional field) [
    | none ↦ some none
    | some pair ↦ some (some pair.value)
  ]

unfoldable pub user_db_users_iterate : Context → List Text
user_db_users_iterate ctx = map (λ u. u.name) ctx.user

module _ (sys : System) where
  -- The loop of `user_db_sync` over the accounts: the files, and `damage`.
  unfoldable pub sync_loop : List User → List Text → Files × Bool → Option (Files × Bool)
  sync_loop us [] acc = some acc
  sync_loop us (name ∷ names) (files, damage) =
      let missing : Option (Files × Bool) =
        elim (put_user sys (record { name = name; additional = [] }) files) [
          | none ↦ none
          | some (put, ok) ↦ sync_loop us names (put, true)
        ] in
      let known = sync_loop us names (files, damage) in
      if is_some (user_find name us) then known else missing

  -- Free everything, and load anew.
  unfoldable pub reload : Db → Db × Bool
  reload db =
      let (ctx, loaded) = load_from_fs sys (user_list_free db.ctx) db.files in
      (record db { ctx = ctx }, loaded)

  -- Without damage nothing is loaded again.
  unfoldable pub finish_sync : Db → Option (Files × Bool) → Option (Db × Bool)
  unfolding reload
  finish_sync db none = none
  finish_sync db (some (files, true)) = some (reload (record db { files = files }))
  finish_sync db (some (files, false)) = some (record db { files = files }, true)

  -- `user_db_sync` behind the first load.
  unfoldable pub sync_loaded : Db → Option (Db × Bool)
  unfolding finish_sync sync_loop
  sync_loaded db =
      let (files, prepared) = prepare_db sys db.files in
      let listed : Option (Db × Bool) = elim (list_users sys) [
        | none ↦ some (record db { files = files }, false)
        | some names ↦ finish_sync db (sync_loop db.ctx.user names (files, false))
      ] in
      if not (db.ctx.started_uid == 0)
      then some (db, false)
      else if not prepared
      then some (record db { files = files }, false)
      else listed

  unfoldable pub user_db_sync : Db → Option (Db × Bool)
  unfolding sync_loaded
  user_db_sync db =
      let (ctx, loaded) = load_from_fs sys db.ctx db.files in
      if db.ctx.loaded_from_fs
      then sync_loaded db
      else if not loaded
      then some (db, false)
      else sync_loaded (record db { ctx = ctx })

  -- `user_db_init`. The last branch frees the context and leaves `ctx` set. `ref` is an `int`, whose
  -- overflow is undefined.
  unfoldable pub first_context : Files → Option Db
  first_context files =
      let fresh : Db = record {
        ctx = record { started_uid = sys.uid; user = []; loaded_from_fs = false; ref = 0 };
        files = files;
      } in
      if sys.uid == 0
      then Option.map (λ r. r.0) (user_db_sync fresh)
      else some (record fresh { ctx = (load_from_fs sys fresh.ctx files).0 })

  unfoldable pub user_db_init : Store → Option (Store × Bool)
  unfolding first_context
  user_db_init s = elim s.handle [
    | dangling ↦ none
    | live ctx ↦
        if ctx.ref + 1 == 2 ^ 31
        then none
        else some (record s { handle = live (record ctx { ref = ctx.ref + 1 }) }, true)
    | null ↦ do
      db ← first_context s.files
      let nobody : Bool = elim db.ctx.user [ [] ↦ true | u ∷ us ↦ false ]
      let kept : Store = record { handle = live (record db.ctx { ref = 1 }); files = db.files }
      let freed : Store = record { handle = dangling; files = db.files }
      some (if nobody && not (db.ctx.started_uid == 0) then (freed, false) else (kept, true))
  ]

  -- `user_db_shutdown`; `ref` counts the calls of `user_db_init`, so it is not 0 before.
  unfoldable pub user_db_shutdown : Store → Option Store
  user_db_shutdown s = elim s.handle [
    | live ctx ↦ some (
        if ctx.ref - 1 == 0
        then record s { handle = null }
        else record s { handle = live (record ctx { ref = ctx.ref - 1 }) })
    | _ ↦ none
  ]

  -- `_put_user`, then free everything and load anew.
  unfoldable pub put_and_reload : User → Db → Option (Db × Bool)
  unfolding reload
  put_and_reload user db = do
    put ← put_user sys user db.files
    let changed = record db {
      ctx = record db.ctx { user = update_user user db.ctx.user };
      files = put.0;
    }
    if put.1 then some (reload changed) else some (changed, false)

  unfoldable pub set_field : User → Text → Text → User
  set_field user field value = elim (user_field_get user.additional field) [
    | none ↦ user_pair_add user (record { value = value; name = field })
    | some pair ↦ record user { additional = write_value user.additional field value }
  ]

  unfoldable pub user_db_field_set : Text → Text → Text → Db → Option (Db × Bool)
  unfolding put_and_reload set_field
  user_db_field_set name field value db = do
    pw ← getpwnam sys.passwd name
    let edited =
        user_find name db.ctx.user >>= λ user. put_and_reload (set_field user field value) db
    if pw.pw_uid == sys.uid then edited else some (db, false)

  unfoldable pub user_db_field_del : Pair → Text → Text → Db → Option (Db × Bool)
  unfolding put_and_reload
  user_db_field_del past name field db = do
    user ← user_find name db.ctx.user
    put_and_reload (user_pair_remove past user field) db
