-- ===== src/UserDb/Reload.antt =====
-- user_db.c: what loading a directory of .ini files gives.
use spawny.Base.{
  map, ◌-◌, ◌<◌, ◌≡◌, refl, ap, ◌∙◌, true, List, [], ◌∷◌, ◌++◌, Option, none, some, Text, codes,
  str_eq, arith, length, All, if◌then◌else◌, is_some, length-append, drop-append, append-nil,
  append_assoc, str_eq_refl, str_eq_iff, Bool-cases, inl, inr, lt→ltb,
}
use spawny.UserDb.{User, Pair, user_find}
use spawny.UserDb.Files.{
  System, Entry, getpwnam, write_file, file_of, ini_parse_file, load_ini_parse, add_loaded,
  load_file, has_ini_suffix, load_dir,
}

-- The first file of that name.
unfoldable pub file_find : Text → List (Text × Text) → Option Text
file_find file [] = none
file_find file ((f, c) ∷ fs) = if str_eq f file then some c else file_find file fs

module _ (sys : System) where
  -- The name and the pairs that a file's text declares.
  abbrev pub declared : Text → Option Text × List Pair
  declared content = ini_parse_file sys (none, []) (sys.ini_entries content)

  -- A file that declares a user carries that user's name.
  abbrev pub Tidy : List (Text × Text) → Type 0
  Tidy = All (λ fc. (n : Text) → (declared fc.1).0 ≡ some n → str_eq fc.0 (file_of n) ≡ true)

pub user_find-append :
    (n : Text) (us vs : List User)
    → user_find n (us ++ vs) ≡ (elim (user_find n us) [ none ↦ user_find n vs | some u ↦ some u ])
unfolding user_find
user_find-append n [] vs = refl
user_find-append n (u ∷ us) vs = ground (arith, user_find-append n us vs)

-- What reading one file does to the search for one name.
module _ (sys : System) (n : Text) where
  add_loaded_known :
      (d : Option Text × List Pair) (us : List User) (u : User)
      → user_find n us ≡ some u
      → user_find n (add_loaded sys d us).0 ≡ some u
  unfolding add_loaded user_find
  add_loaded_known (none, ps) us u h = h
  add_loaded_known (some m, ps) us u h =
      ground (arith, user_find-append n us (record { name = m; additional = ps } ∷ []))

  add_loaded_other :
      (d : Option Text × List Pair) (us : List User)
      → (d.0 ≡ some n → ⊥)
      → user_find n us ≡ none
      → user_find n (add_loaded sys d us).0 ≡ none
  unfolding add_loaded user_find
  add_loaded_other (none, ps) us ne h = h
  add_loaded_other (some m, ps) us ne h =
      ground
        (arith, user_find-append n us (record { name = m; additional = ps } ∷ []), str_eq_iff m n)

  add_loaded_hit :
      (ps : List Pair) (us : List User)
      → user_find n us ≡ none
      → is_some (getpwnam sys.passwd n) ≡ true
      → user_find n (add_loaded sys (some n, ps) us).0 ≡ some (record { name = n; additional = ps })
  unfolding add_loaded user_find
  add_loaded_hit ps us h pw =
      ground
        (arith, user_find-append n us (record { name = n; additional = ps } ∷ []), str_eq_refl n)

  load_file_known :
      (fc : Text × Text) (us : List User) (u : User)
      → user_find n us ≡ some u
      → user_find n (load_file sys fc us).0 ≡ some u
  unfolding load_file
  load_file_known (f, c) us u h = ground (arith, add_loaded_known (declared sys c) us u)

  load_file_other :
      (fc : Text × Text) (us : List User)
      → ((declared sys fc.1).0 ≡ some n → ⊥)
      → user_find n us ≡ none
      → user_find n (load_file sys fc us).0 ≡ none
  unfolding load_file
  load_file_other (f, c) us ne h =
      let rest = add_loaded_other (declared sys c) us ne h in ground (arith, rest)

  load_file_hit :
      (f c : Text) (ps : List Pair) (us : List User)
      → user_find n us ≡ none
      → declared sys c ≡ (some n, ps)
      → is_some (getpwnam sys.passwd n) ≡ true
      → sys.can_read f ≡ true
      → user_find n (load_file sys (f, c) us).0 ≡ some (record { name = n; additional = ps })
  unfolding load_file
  load_file_hit f c ps us h d pw can = rw (can, d) (add_loaded_hit ps us h pw)

  load_dir_known :
      (fs : List (Text × Text)) (us : List User) (u : User)
      → user_find n us ≡ some u
      → user_find n (load_dir sys fs us) ≡ some u
  unfolding load_dir
  load_dir_known [] us u h = h
  load_dir_known ((f, c) ∷ fs) us u h =
      load_dir_known fs _ u (elim (Bool-cases (has_ini_suffix sys f)) [
        | inl e ↦ rw e (load_file_known (f, c) us u h)
        | inr e ↦ rw e h
      ])

  skip_file :
      (f c : Text) (us : List User)
      → ((declared sys c).0 ≡ some n → ⊥)
      → user_find n us ≡ none
      → user_find n (if has_ini_suffix sys f then (load_file sys (f, c) us).0 else us) ≡ none
  skip_file f c us ne h = elim (Bool-cases (has_ini_suffix sys f)) [
    | inl e ↦ rw e (load_file_other (f, c) us ne h)
    | inr e ↦ rw e h
  ]

  file_of-has_ini_suffix : 0 < length n → has_ini_suffix sys (file_of n) ≡ true
  unfolding has_ini_suffix
  file_of-has_ini_suffix h =
      let l = length-append n (codes ".ini") in
      let e : length (n ++ codes ".ini") - 4 ≡ length n = omega (arith, l) in
      rw (lt→ltb 4 (length (n ++ codes ".ini")) (omega (arith, l)), e, drop-append n (codes ".ini"))
        (str_eq_refl (codes ".ini"))

  -- Loading finds the user that the file of a tidy directory under that name declares, with its
  -- pairs, where the user has an account, its file can be read and it was not in the table before.
  pub load_dir_find :
      (fs : List (Text × Text)) (us : List User) (content : Text) (ps : List Pair)
      → 0 < length n
      → Tidy sys fs
      → user_find n us ≡ none
      → file_find (file_of n) fs ≡ some content
      → declared sys content ≡ (some n, ps)
      → is_some (getpwnam sys.passwd n) ≡ true
      → sys.can_read (file_of n) ≡ true
      → user_find n (load_dir sys fs us) ≡ some (record { name = n; additional = ps })
  unfolding load_dir file_find
  load_dir_find [] us content ps pos tidy h found d pw can = cc
  load_dir_find ((f, c) ∷ fs) us content ps pos tidy h found d pw can =
      elim (Bool-cases (str_eq f (file_of n))) [
        | inl e ↦
            let f_lem : f ≡ file_of n = (str_eq_iff f (file_of n)).0 e in
            let c_lem : c ≡ content = ground arith in
            let seen : has_ini_suffix sys f ≡ true = rw f_lem (file_of-has_ini_suffix pos) in
            rw seen
              (load_dir_known fs _ _ (load_file_hit f c ps us h (rw c_lem d) pw (rw f_lem can)))
        | inr e ↦
            let other : (declared sys c).0 ≡ some n → ⊥ = λ q. cc (tidy.0 n q) in
            let still : user_find n
                  (if has_ini_suffix sys f then (load_file sys (f, c) us).0 else us)
                ≡ none =
              skip_file f c us other h in
            load_dir_find fs _ content ps pos tidy.1 still (ground arith) d pw can
      ]

-- Writing one file changes what is found under its own name only.
pub file_find-write_file :
    (f g c : Text) (fs : List (Text × Text))
    → file_find f (write_file g c fs) ≡ (if str_eq g f then some c else file_find f fs)
unfolding file_find write_file
file_find-write_file f g c [] = refl
file_find-write_file f g c ((h, d) ∷ fs) =
    ground (arith, file_find-write_file f g c fs, str_eq_iff h f, str_eq_iff h g, str_eq_iff g f)

module _ (sys : System) where
  own_name :
      (n c f : Text)
      → (declared sys c).0 ≡ some n
      → str_eq f (file_of n) ≡ true
      → (m : Text) → (declared sys c).0 ≡ some m
      → str_eq f (file_of m) ≡ true
  own_name n c f d e m q = let same : n ≡ m = ground arith in rw (← same) e

  -- Writing a text that declares a user into the file named after that user keeps the directory
  -- tidy.
  pub write_file-Tidy :
      (n c : Text) (fs : List (Text × Text))
      → (declared sys c).0 ≡ some n
      → Tidy sys fs
      → Tidy sys (write_file (file_of n) c fs)
  unfolding write_file
  write_file-Tidy n c [] d t = (own_name n c (file_of n) d (str_eq_refl (file_of n)), tt)
  write_file-Tidy n c ((f, b) ∷ fs) d t = elim (Bool-cases (str_eq f (file_of n))) [
    | inl e ↦ rw e (own_name n c f d e, t.1)
    | inr e ↦ rw e (t.0, write_file-Tidy n c fs d t.1)
  ]

  -- The entries that inih reports for a printed user.
  abbrev pub user_entries : User → List Entry
  user_entries u =
      record { in_section = codes "identify"; name = codes "name"; value = u.name }
      ∷ map (λ p. record { in_section = codes "info"; name = p.name; value = p.value }) u.additional

  parse_pairs :
      (o : Option Text) (ps qs : List Pair)
      → ini_parse_file sys
          (o, qs)
          (map (λ p. record { in_section = codes "info"; name = p.name; value = p.value }) ps)
        ≡ (o, qs ++ ps)
  unfolding ini_parse_file load_ini_parse str_eq
  parse_pairs o [] qs = rw append-nil
  parse_pairs o (p ∷ ps) qs =
      parse_pairs o ps (qs ++ p ∷ []) ∙ ap (λ (t : List Pair). (o, t)) (append_assoc qs (p ∷ []) ps)

  -- Reading such entries gives the user back.
  pub parse-user_entries :
      (u : User) → ini_parse_file sys (none, []) (user_entries u) ≡ (some u.name, u.additional)
  unfolding ini_parse_file load_ini_parse str_eq
  parse-user_entries u = parse_pairs (some u.name) u.additional []
