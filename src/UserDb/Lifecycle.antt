-- ===== src/UserDb/Lifecycle.antt =====
-- user_db.c: the life of `ctx` under `user_db_init` and `user_db_shutdown`, and what
-- `user_db_sync` needs.
use spawny.Base.{
  ℕ, zero, suc, ◌+◌, ◌-◌, ◌<◌, ◌≡◌, ◌≢◌, ◌^◌, refl, ◌∙◌, ap, sym, true, false, Option, none, some,
  arith, if◌then◌else◌, ◌>>=◌, ◌==◌, Option-cases, inl, inr,
}
use spawny.UserDb.{Context}
use spawny.UserDb.Files.{System, Files, load_from_fs}
use spawny.UserDb.Api.{
  Db, Store, null, live, first_context, user_db_init, user_db_shutdown, user_db_sync,
}

module _ (sys : System) where
  -- As root or not: where the directory is missing and nothing was loaded yet, `user_db_sync`
  -- fails and changes nothing, so it never gets to make the directory.
  pub user_db_sync_no_directory :
      (db : Db)
      → db.files ≡ none
      → db.ctx.loaded_from_fs ≡ false
      → user_db_sync sys db ≡ some (db, false)
  unfolding user_db_sync load_from_fs
  user_db_sync_no_directory db h l = ground arith

  -- A process that is not root never changes the files by `user_db_sync`, which fails and keeps
  -- the reference count.
  pub user_db_sync_not_root :
      (db : Db)
      → db.ctx.started_uid ≢ 0
      → (ctx : Context) × (user_db_sync sys db ≡ some (record db { ctx = ctx }, false))
        × (ctx.ref ≡ db.ctx.ref)
  unfolding user_db_sync load_from_fs
  user_db_sync_not_root db h = (
    if db.ctx.loaded_from_fs then db.ctx else (load_from_fs sys db.ctx db.files).0,
    ground arith,
    ground arith,
  )

  -- `n` calls of `user_db_init` that succeed, one after the other.
  pub inits : ℕ → Store → Option Store
  inits zero s = some s
  inits (suc n) s = user_db_init sys s >>= λ r. inits n r.0

  pub shutdowns : ℕ → Store → Option Store
  shutdowns zero s = some s
  shutdowns (suc n) s = user_db_shutdown sys s >>= λ r. shutdowns n r

  abbrev pub with_ref : Context → ℕ → Files → Store
  with_ref ctx r files = record { handle = live (record ctx { ref = r }); files = files }

  inits_lem :
      (n r m : ℕ) (ctx : Context) (files : Files)
      → r + n ≡ m
      → m < 2 ^ 31
      → inits n (with_ref ctx r files) ≡ some (with_ref ctx m files)
  unfolding inits user_db_init
  inits_lem zero r m ctx files e small = ground arith
  inits_lem (suc n) r m ctx files e small =
      let fits : (r + 1 == 2 ^ 31) ≡ false = ground (arith, small) in
      rw fits (inits_lem n (r + 1) m ctx files (omega arith) small)

  shutdowns_lem :
      (n r m : ℕ) (ctx : Context) (files : Files)
      → m + n ≡ r
      → 0 < m
      → shutdowns n (with_ref ctx r files) ≡ some (with_ref ctx m files)
  unfolding shutdowns user_db_shutdown
  shutdowns_lem zero r m ctx files e pos = ground arith
  shutdowns_lem (suc n) r m ctx files e pos =
      let live_still : (r - 1 == 0) ≡ false = ground arith in
      rw live_still (shutdowns_lem n (r - 1) m ctx files (omega arith) pos)

  shutdowns-append :
      (n : ℕ) (s t : Store) → shutdowns n s ≡ some t → shutdowns (suc n) s ≡ user_db_shutdown sys t
  unfolding shutdowns
  shutdowns-append zero s t e = ground arith
  shutdowns-append (suc n) s t e = elim (Option-cases (user_db_shutdown sys s)) [
    | inl q ↦ ground arith
    | inr (r, q) ↦ rw q (shutdowns-append n r t (ground arith))
  ]

  -- The first call, where it succeeds, makes a context with one reference.
  first_init :
      (s s' : Store)
      → s.handle ≡ null
      → user_db_init sys s ≡ some (s', true)
      → (ctx : Context) × (s' ≡ with_ref ctx 1 s'.files)
  unfolding user_db_init
  first_init s s' empty e = elim (Option-cases (first_context sys s.files)) [
    | inl q ↦ absurd (ground (arith, empty, e, q))
    | inr (db, q) ↦ (db.ctx, ground (arith, empty, e, q))
  ]

  -- From a process without a context on: after a first call of `user_db_init` that succeeds and `n`
  -- more, as many as an `int` can count, the context lives through `n` calls of
  -- `user_db_shutdown`, after which it is as the first call made it, and the next call frees it,
  -- with the files as the first call left them.
  pub shutdowns-inits :
      (n : ℕ) (s first : Store)
      → s.handle ≡ null
      → user_db_init sys s ≡ some (first, true)
      → n + 1 < 2 ^ 31
      → (last : Store) × (inits n first ≡ some last)
        × (shutdowns n last ≡ some first)
        × (shutdowns (suc n) last ≡ some (record { handle = null; files = first.files }))
  shutdowns-inits n s first empty e small =
      let (ctx, made) = first_init s first empty e in
      let back = shutdowns_lem n (1 + n) 1 ctx first.files refl (omega arith) in
      (
        with_ref ctx (1 + n) first.files,
        ap (inits n) made ∙ inits_lem n 1 (1 + n) ctx first.files refl (omega (arith, small)),
        back ∙ ap some (sym made),
        shutdowns-append n _ _ back ∙ unfold user_db_shutdown in refl,
      )
