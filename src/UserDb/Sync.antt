-- ===== src/UserDb/Sync.antt =====
-- user_db.c: what `user_db_sync` leaves for the accounts.
use spawny.Base.{
  map, ◌≡◌, refl, ap, sym, ◌∙◌, Bool, true, false, not, ◌&&◌, ◌||◌, List, [], ◌∷◌, Option, none,
  some, Text, codes, str_eq, arith, All, if◌then◌else◌, is_some, str_eq_refl, str_eq_iff,
  Bool-cases, Option-cases, inl, inr,
}
use spawny.UserDb.{User, Context, user_find, user_list_free}
use spawny.UserDb.Files.{
  System, Files, getpwnam, write_file, file_of, load_dir, load_from_fs, prepare_db, list_users,
}
use spawny.UserDb.Api.{Db, sync_loop, finish_sync, sync_loaded, user_db_sync, reload}
use spawny.UserDb.Reload.{Tidy, load_dir_find, file_find-write_file, write_file-Tidy}
use spawny.UserDb.Fields.{Saves, put_user-Saves, declared_saved}
use spawny.UserDb.Written.{load_dir-write_file}

-- A user with nothing but a name.
abbrev pub bare : Text → User
bare name = record { name = name; additional = [] }

unfoldable pub among : Text → List Text → Bool
among n [] = false
among n (m ∷ ms) = str_eq m n || among n ms

unfoldable lacks : List User → List Text → Bool
lacks us [] = false
lacks us (m ∷ ms) = not (is_some (user_find m us)) || lacks us ms

module _ (sys : System) where
  -- The user that a name stands for once the names are synchronized with a table.
  abbrev pub synced : List User → List Text → List (Text × Text) → Text → Option User
  synced us names fs n =
      if not (is_some (user_find n us)) && among n names
      then some (bare n)
      else user_find n (load_dir sys fs [])

  -- Nothing stands in the way of saving the names that a table lacks.
  abbrev pub Writable : List User → List Text → Type 0
  Writable us = All (λ n. user_find n us ≡ none → (content : Text) × Saves sys (bare n) content)

  find_written :
      (m c : Text) (fs : List (Text × Text))
      → Tidy sys fs
      → Saves sys (bare m) c
      → (n : Text)
      → user_find n (load_dir sys (write_file (file_of m) c fs) [])
        ≡ (if str_eq m n then some (bare n) else user_find n (load_dir sys fs []))
  find_written m c fs t s n =
      let d = declared_saved sys (bare m) c s in
      elim (Bool-cases (str_eq m n)) [
        | inl e ↦
            let same : m ≡ n = (str_eq_iff m n).0 e in
            rw e (
              rw (← same) (
                load_dir_find sys m (write_file (file_of m) c fs) [] c [] s.named
                  (write_file-Tidy sys m c fs (rw d) t) (unfold user_find in refl)
                  (file_find-write_file (file_of m) (file_of m) c fs ∙ rw (str_eq_refl (file_of m)))
                  d s.account s.readable))
        | inr e ↦ rw e (
            load_dir-write_file sys n m c fs [] (λ q. ground (arith, (str_eq_iff m n).1 q)) (rw d)
              t)
      ]

  sync_loop_lem :
      (us : List User) (names : List Text) (fs : List (Text × Text)) (damage : Bool)
      → Tidy sys fs
      → Writable us names
      → (fs' : List (Text × Text)) × (sync_loop sys us names (some fs, damage)
          ≡ some (some fs', damage || lacks us names))
        × ((n : Text) → user_find n (load_dir sys fs' []) ≡ synced us names fs n)
        × (lacks us names ≡ false → fs' ≡ fs)
  unfolding sync_loop among lacks
  sync_loop_lem us [] fs damage t w = (fs, ground arith, λ n. ground arith, λ h. refl)
  sync_loop_lem us (m ∷ names) fs damage t w = elim (Option-cases (user_find m us)) [
    | inr (u, e) ↦
        let (fs', looped, finds, kept) = sync_loop_lem us names fs damage t w.1 in
        (fs', rw e looped, λ n. ground (arith, finds n, e, str_eq_iff m n), rw e kept)
    | inl e ↦
        let (c, s) = w.0 e in
        let written = write_file (file_of m) c fs in
        let tidy = write_file-Tidy sys m c fs (rw (declared_saved sys (bare m) c s)) t in
        let (fs', looped, finds, kept) = sync_loop_lem us names written true tidy w.1 in
        (
          fs',
          rw (e, put_user-Saves sys (bare m) c fs s) (looped ∙ ground arith),
          λ n. ground (arith, finds n, find_written m c fs t s n, e, str_eq_iff m n),
          λ h. absurd (ground (arith, e)),
        )
  ]

  abbrev pub accounts : List Text
  accounts = map (λ pw. pw.pw_name) sys.passwd

  finish :
      (db : Db) (fs fs' : List (Text × Text)) (damage : Bool) (want : Text → Option User)
      → db.ctx.user ≡ load_dir sys fs []
      → ((n : Text) → user_find n (load_dir sys fs' []) ≡ want n)
      → (damage ≡ false → fs' ≡ fs)
      → (db' : Db) × (finish_sync sys db (some (some fs', damage)) ≡ some (db', true))
        × ((n : Text) → user_find n db'.ctx.user ≡ want n)
  unfolding finish_sync reload load_from_fs user_list_free
  finish db fs fs' true want e finds kept = (_, refl, finds)
  finish db fs fs' false want e finds kept =
      let same = kept refl in
      (
        record db { files = some fs' },
        refl,
        λ n.
            ap (user_find n) (e ∙ ap (λ (t : List (Text × Text)). load_dir sys t []) (sym same))
            ∙ finds n,
      )

  prepared :
      (fs : List (Text × Text))
      → is_some (getpwnam sys.passwd (codes "spawny")) ≡ true
      → sys.can_access_dir ≡ true
      → sys.can_chown_dir ≡ true
      → prepare_db sys (some fs) ≡ (some fs, true)
  unfolding prepare_db
  prepared fs spawny access owned = ground arith

  all_listed : sys.can_list ≡ true → list_users sys ≡ some accounts
  unfolding list_users
  all_listed h = ground arith

  sync_loaded_lem :
      (db : Db) (files files' : Files) (names : List Text)
      → db.files ≡ files
      → db.ctx.started_uid ≡ 0
      → prepare_db sys files ≡ (files', true)
      → list_users sys ≡ some names
      → sync_loaded sys db ≡ finish_sync sys db (sync_loop sys db.ctx.user names (files', false))
  unfolding sync_loaded
  sync_loaded_lem db files files' names at root prep names_at = ground (arith, at, prep, names_at)

  sync_unloaded :
      (db : Db) (ctx : Context) (files : Files)
      → db.files ≡ files
      → db.ctx.loaded_from_fs ≡ false
      → load_from_fs sys db.ctx files ≡ (ctx, true)
      → user_db_sync sys db ≡ sync_loaded sys (record db { ctx = ctx })
  unfolding user_db_sync
  sync_unloaded db ctx files at unloaded loads = ground (arith, at, unloaded, loads)

  -- As root, with an account spawny, a directory that is there, can be accessed, is tidy and was not
  -- loaded yet, and nothing in the way of saving a user for each account that has none there:
  -- `user_db_sync` succeeds; every account has a user after it, one with nothing but its name where
  -- it had none, and the users that were there are as the files have them.
  pub user_db_sync-synced :
      (db : Db) (fs : List (Text × Text))
      → db.files ≡ some fs
      → db.ctx.loaded_from_fs ≡ false
      → db.ctx.user ≡ []
      → db.ctx.started_uid ≡ 0
      → is_some (getpwnam sys.passwd (codes "spawny")) ≡ true
      → sys.can_access_dir ≡ true
      → sys.can_chown_dir ≡ true
      → sys.can_list ≡ true
      → Tidy sys fs
      → Writable (load_dir sys fs []) accounts
      → (db' : Db) × (user_db_sync sys db ≡ some (db', true))
        × ((n : Text) → user_find n db'.ctx.user ≡ synced (load_dir sys fs []) accounts fs n)
        × ((n : Text) → not (among n accounts) || is_some (user_find n db'.ctx.user) ≡ true)
  user_db_sync-synced db fs at unloaded empty root spawny access owned listed t w =
      let us = load_dir sys fs [] in
      let ctx : Context = record db.ctx { user = us; loaded_from_fs = true } in
      let fresh : Db = record db { ctx = ctx } in
      let (fs', looped, finds, kept) = sync_loop_lem us accounts fs false t w in
      let (db', finished, found) =
        finish fresh fs fs' (lacks us accounts) (synced us accounts fs) refl finds kept in
      let loads : load_from_fs sys db.ctx (some fs) ≡ (ctx, true) =
        unfold load_from_fs in
        ap
          (λ (u : List User).
            (record db.ctx { user = load_dir sys fs u; loaded_from_fs = true }, true))
          empty in
      (
        db',
        sync_unloaded db ctx (some fs) at unloaded loads
            ∙ sync_loaded_lem fresh (some fs) (some fs) accounts at root
                (prepared fs spawny access owned) (all_listed listed)
            ∙ ap (finish_sync sys fresh) looped
            ∙ finished,
        found,
        λ n. ground (arith, found n),
      )
