-- ===== src/Server/Data/Users.antt =====
-- server.c and user_db.c: the users that a greeter is told of.

use spawny.Base.{
  ◌≡◌, refl, sym, subst, true, List, [], ◌∷◌, ◌++◌, map, Option, none, some, Text, codes, arith,
  str_eq_refl, All, All-imp, All-append, is_some, Option-cases, Bool-cases, inl, inr, ◌>>=◌,
}
use spawny.UserDb.{Pair, User, Context, user_find, user_field_get}
use spawny.UserDb.Files.{Passwd, System, getpwnam, add_loaded, load_file, load_dir, has_ini_suffix}
use spawny.UserDb.Api.{user_db_users_iterate, user_db_field_get}
use spawny.UserDb.Reload.{user_find-append}
use spawny.Client.{ProtoUser}
use spawny.Server.Data.{Host, load_users}

-- Each user of the table is the one that its name finds, and has an account.
abbrev Listed : List Passwd → List User → User → Type 0
Listed passwd us u = (user_find u.name us ≡ some u) × (is_some (getpwnam passwd u.name) ≡ true)

abbrev pub AreListed : List Passwd → List User → Type 0
AreListed passwd us = All (Listed passwd us) us

abbrev pub value : Text → User → Option Text
value field u = user_field_get u.additional field >>= λ p. some p.value

-- The user as it is told.
abbrev pub shown : List Passwd → User → ProtoUser
shown passwd u = record {
  uid = elim (getpwnam passwd u.name) [ none ↦ 0 | some pw ↦ pw.pw_uid ];
  name = getpwnam passwd u.name >>= λ pw. some pw.pw_name;
  icon = value (codes "icon") u;
  prefered_session = value (codes "prefered-session") u;
}

field_of :
    (ctx : Context) (u : User) (field : Text)
    → user_find u.name ctx.user ≡ some u
    → user_db_field_get ctx u.name field ≡ some (value field u)
unfolding user_db_field_get
field_of ctx u field e = ground (arith, e)

load_users-map :
    (host : Host) (ctx : Context) (us : List User)
    → All (Listed host.passwd ctx.user) us
    → load_users host ctx (map (λ u. u.name) us) ≡ some (map (shown host.passwd) us)
unfolding load_users
load_users-map host ctx [] h = refl
load_users-map host ctx (u ∷ us) h = elim (Option-cases (getpwnam host.passwd u.name)) [
  | inl n ↦ absurd (ground (arith, h.0.1))
  | inr (pw, e) ↦ rw (
    e,
    field_of ctx u (codes "icon") h.0.0,
    field_of ctx u (codes "prefered-session") h.0.0,
    load_users-map host ctx us h.1,
  )
]

module _ (sys : System) where
  add_loaded-AreListed :
      (d : Option Text × List Pair) (us : List User)
      → AreListed sys.passwd us
      → AreListed sys.passwd (add_loaded sys d us).0
  unfolding add_loaded
  add_loaded-AreListed (none, ps) us h = h
  add_loaded-AreListed (some n, ps) us h = elim (Option-cases (getpwnam sys.passwd n)) [
    | inl e ↦ rw e h
    | inr (pw, e) ↦ elim (Option-cases (user_find n us)) [
      | inl fresh ↦
          let v : User = record { name = n; additional = ps } in
          rw (e, fresh)
            (All-append (Listed sys.passwd (us ++ v ∷ [])) us (v ∷ [])
              (All-imp (Listed sys.passwd us) (Listed sys.passwd (us ++ v ∷ [])) us
                (λ u (found, account). (rw (user_find-append u.name us (v ∷ []), found), account))
                h)
              (
                (
                  rw (user_find-append n us (v ∷ []), fresh)
                      (unfold user_find in rw (str_eq_refl n) refl),
                  rw e refl,
                ),
                tt,
              ))
      | inr (old, q) ↦ rw (e, q) h
    ]
  ]

  load_file-AreListed :
      (f c : Text) (us : List User)
      → AreListed sys.passwd us
      → AreListed sys.passwd (load_file sys (f, c) us).0
  unfolding load_file
  load_file-AreListed f c us h = elim (Bool-cases (sys.can_read f)) [
    | inl e ↦ rw e (add_loaded-AreListed _ us h)
    | inr e ↦ rw e h
  ]

  load_dir-AreListed :
      (fs : List (Text × Text)) (us : List User)
      → AreListed sys.passwd us
      → AreListed sys.passwd (load_dir sys fs us)
  unfolding load_dir
  load_dir-AreListed [] us h = h
  load_dir-AreListed ((f, c) ∷ fs) us h =
      load_dir-AreListed fs _ (elim (Bool-cases (has_ini_suffix sys f)) [
        | inl e ↦ rw e (load_file-AreListed f c us h)
        | inr e ↦ rw e h
      ])

-- Where the user database was loaded from a directory under the same accounts: the users that are
-- told are those of the database, in their order, each with the uid and name of its account, its
-- icon and its prefered session.
pub load_users-load_dir :
    (sys : System) (host : Host) (ctx : Context) (fs : List (Text × Text))
    → sys.passwd ≡ host.passwd
    → ctx.user ≡ load_dir sys fs []
    → load_users host ctx (user_db_users_iterate ctx) ≡ some (map (shown host.passwd) ctx.user)
unfolding user_db_users_iterate
load_users-load_dir sys host ctx fs same loaded = load_users-map host ctx ctx.user (
    subst (λ pws. AreListed pws ctx.user) same
      (subst (λ us. AreListed sys.passwd us) (sym loaded) (load_dir-AreListed sys fs [] tt)))
