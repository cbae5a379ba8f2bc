-- ===== src/UserDb/Written.antt =====
-- user_db.c: what the file of one user does to the loading of another.
use spawny.Base.{
  ◌≡◌, refl, sym, ◌∙◌, List, [], ◌∷◌, Option, none, some, Text, codes, str_eq, append_cancel_right,
  arith, if◌then◌else◌, str_eq_iff, Bool-cases, inl, inr,
}
use spawny.UserDb.{User, Pair, user_find}
use spawny.UserDb.Files.{
  System, write_file, file_of, add_loaded, load_file, has_ini_suffix, load_dir,
}
use spawny.UserDb.Reload.{Tidy, declared, user_find-append}

-- What loading does to the search for one name.
module _ (sys : System) (n : Text) where
  add_loaded_same :
      (d : Option Text × List Pair) (us vs : List User)
      → user_find n us ≡ user_find n vs
      → user_find n (add_loaded sys d us).0 ≡ user_find n (add_loaded sys d vs).0
  unfolding add_loaded user_find
  add_loaded_same (none, ps) us vs h = h
  add_loaded_same (some m, ps) us vs h = elim (Bool-cases (str_eq m n)) [
    | inl e ↦
        let same : m ≡ n = (str_eq_iff m n).0 e in
        let u : User = record { name = n; additional = ps } in
        rw same (ground (arith, h, user_find-append n us (u ∷ []), user_find-append n vs (u ∷ [])))
    | inr e ↦
        let u : User = record { name = m; additional = ps } in
        ground (arith, e, h, user_find-append n us (u ∷ []), user_find-append n vs (u ∷ []))
  ]

  add_loaded_miss :
      (d : Option Text × List Pair) (us : List User)
      → (d.0 ≡ some n → ⊥)
      → user_find n (add_loaded sys d us).0 ≡ user_find n us
  unfolding add_loaded user_find
  add_loaded_miss (none, ps) us ne = refl
  add_loaded_miss (some m, ps) us ne =
      ground
        (arith, user_find-append n us (record { name = m; additional = ps } ∷ []), str_eq_iff m n)

  -- One file of a directory, or none where the name has another ending.
  abbrev loaded : Text → Text → List User → List User
  loaded f c us = if has_ini_suffix sys f then (load_file sys (f, c) us).0 else us

  loaded_same :
      (f c : Text) (us vs : List User)
      → user_find n us ≡ user_find n vs
      → user_find n (loaded f c us) ≡ user_find n (loaded f c vs)
  unfolding load_file
  loaded_same f c us vs h = ground (arith, h, add_loaded_same (declared sys c) us vs h)

  loaded_miss :
      (f c : Text) (us : List User)
      → ((declared sys c).0 ≡ some n → ⊥)
      → user_find n (loaded f c us) ≡ user_find n us
  unfolding load_file
  loaded_miss f c us ne = let e = add_loaded_miss (declared sys c) us ne in ground (arith, e)

  load_dir_same :
      (fs : List (Text × Text)) (us vs : List User)
      → user_find n us ≡ user_find n vs
      → user_find n (load_dir sys fs us) ≡ user_find n (load_dir sys fs vs)
  unfolding load_dir
  load_dir_same [] us vs h = h
  load_dir_same ((f, c) ∷ fs) us vs h =
      load_dir_same fs (loaded f c us) (loaded f c vs) (loaded_same f c us vs h)

  -- The file of another user does not matter to the search, whatever was in it.
  pub load_dir-write_file :
      (m c : Text) (fs : List (Text × Text)) (us : List User)
      → (m ≡ n → ⊥)
      → (declared sys c).0 ≡ some m
      → Tidy sys fs
      → user_find n (load_dir sys (write_file (file_of m) c fs) us)
        ≡ user_find n (load_dir sys fs us)
  unfolding load_dir write_file
  load_dir-write_file m c [] us ne d t = loaded_miss (file_of m) c us (λ q. ne (ground arith))
  load_dir-write_file m c ((f, b) ∷ fs) us ne d t = elim (Bool-cases (str_eq f (file_of m))) [
    | inl e ↦ rw e (
        load_dir_same fs (loaded f c us) (loaded f b us) (
          loaded_miss f c us (λ q. ne (ground arith))
          ∙ sym (
              loaded_miss f b us (λ q. ne (
                append_cancel_right m n (codes ".ini") (
                  sym ((str_eq_iff f (file_of m)).0 e)
                  ∙ (str_eq_iff f (file_of n)).0 (t.0 n q)))))))
    | inr e ↦ rw e (load_dir-write_file m c fs (loaded f b us) ne d t.1)
  ]
