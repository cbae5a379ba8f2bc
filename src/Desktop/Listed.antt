-- ===== src/Desktop/Listed.antt =====
-- desktop_common.c and templatereg.c: the registry after the daemon has started.
use spawny.Base.{
  ℕ, suc, ◌+◌, ◌%◌, ◌^◌, ◌≡◌, refl, ap, subst, ◌∙◌, Bool, true, false, List, [], ◌∷◌, ◌++◌, map,
  append_assoc, append-nil, Option, none, some, Text, codes, length, length-append, arith, inl, inr,
  Bool-cases, Option-cases, if◌then◌else◌, ◌==◌, ◌≤◌, ◌>>=◌,
}
use spawny.Templates.{Template, Registry, init, template_register, register_sized, id_text}
use spawny.Templates.Ids.{IsLog, int_length-defined}
use spawny.Templates.Find.{Issued, Issued-append}
use spawny.Desktop.{
  Ini, Dirent, Machine, parse_ini_verbose, has_ext, parse_file, parse_entries, parse_dir,
  tty_template_init, x11_template_init, wl_template_init, templates_init,
}
use spawny.Desktop.Keys.{last_value, handle_all-last_value}

-- A template without its id.
pub record Listing : Type 0 where
  pub name : Text
  pub icon : Option Text
  pub type : Text
  pub cb : ℕ
  pub data_ptr : ℕ

abbrev pub listing : Template → Listing
listing t = record { name = t.name; icon = t.icon; type = t.type; cb = t.cb; data_ptr = t.data_ptr }

module _ (m : Machine) where
  -- A file declares a template where it is parsed with no error and has a name and a command.
  abbrev pub declared : Text → ℕ → Ini → List Listing
  declared type fire_up ini =
      let found : List Listing = elim (last_value (codes "Name") ini.entries) [
        | none ↦ []
        | some name ↦ elim (last_value (codes "Exec") ini.entries) [
          | none ↦ []
          | some exec ↦
              record {
                name = name;
                icon = last_value (codes "Icon") ini.entries;
                type = type;
                cb = fire_up;
                data_ptr = m.strdup exec;
              }
              ∷ []
        ]
      ] in
      if parse_ini_verbose ini.result then found else []

  unfoldable pub declared_in : Text → Text → ℕ → List Dirent → List Listing
  declared_in path type fire_up [] = []
  declared_in path type fire_up (d ∷ ds) =
      (if has_ext d then declared type fire_up (m.ini_parse (path ++ (b'/' ∷ d.d_name))) else [])
      ++ declared_in path type fire_up ds

  unfoldable pub declared_by : Text → Text → ℕ → List Listing
  unfolding declared_in
  declared_by path type fire_up = elim (m.opendir path) [
    | none ↦ []
    | some ds ↦ declared_in path type fire_up ds
  ]

  abbrev pub tty_listing : Listing
  tty_listing = record {
    name = codes "tty";
    icon = some (codes "utilities-terminal");
    type = codes "tty";
    cb = m.tty_fire_up;
    data_ptr = 0;
  }

  -- The terminal first, then the directories.
  unfoldable pub declared_all : List Listing
  declared_all =
      (tty_listing ∷ [])
      ++ ((declared_by (codes "/usr/share/xsessions/") (codes "x11") m.x11_fire_up
            ++ declared_by (codes "/usr/local/share/xsessions/") (codes "x11") m.x11_fire_up)
          ++ (declared_by (codes "/usr/share/wayland-sessions/") (codes "wayland") m.wl_fire_up
              ++ declared_by (codes "/usr/local/share/wayland-sessions/") (codes "wayland")
                  m.wl_fire_up))

  module _ (law : IsLog m.log10) where
    -- Templates with these listings and new ids stand behind the old ones.
    abbrev pub Grown : ℕ → List Template → List Listing → Option Registry → Type 0
    Grown c ts ls r =
        (new : List Template) × (map listing new ≡ ls)
        × (r ≡ some (record { array = some (ts ++ new); counter = c + length new }))
        × Issued m.log10 law 0 (c + length new) (ts ++ new)

    abbrev Grows : (Registry → Option Registry) → List Listing → Type 0
    Grows f ls =
        (c : ℕ) (ts : List Template)
        → Issued m.log10 law 0 c ts
        → c + length ls ≤ 2 ^ 31
        → Grown c ts ls (f (record { array = some ts; counter = c }))

    Grows-none : Grows (λ r. some r) []
    Grows-none c ts v fits =
        let z : c + 0 ≡ c = omega arith in
        ([], refl, rw (append-nil ts, z), rw (append-nil ts, z) v)

    Grows-then :
        (f g : Registry → Option Registry) (ls ks : List Listing)
        → Grows f ls
        → Grows g ks
        → Grows (λ r. f r >>= λ s. g s) (ls ++ ks)
    Grows-then f g ls ks F G c ts v fits =
        let total = length-append ls ks in
        let (new, l, e, v') = F c ts v (omega (arith, total)) in
        let n : length new ≡ length ls = length-listing new ∙ ap length l in
        let (new', l', e', v'') = G (c + length new) (ts ++ new) v' (omega (arith, total, n)) in
        let sum : c + length new + length new' ≡ c + length (new ++ new') =
          omega (arith, length-append new new') in
        (
          new ++ new',
          map_append new new' ∙ rw (l, l'),
          rw (e, e', append_assoc ts new new', sum),
          rw (← append_assoc ts new new', ← sum) v'',
        )
      where
        length-listing : (ts : List Template) → length ts ≡ length (map listing ts)
        length-listing [] = refl
        length-listing (t ∷ ts) = ap suc (length-listing ts)

        map_append :
            (ts us : List Template) → map listing (ts ++ us) ≡ map listing ts ++ map listing us
        map_append [] us = refl
        map_append (t ∷ ts) us = ap (◌∷◌ (listing t)) (map_append ts us)

    register-Grows :
        (name : Text) (icon : Option Text) (type : Text) (fire_up ptr : ℕ)
        → Grows
            (λ r. template_register m.log10 (some name) icon type (some fire_up) ptr r >>= λ s.
              some s.0)
            (record { name = name; icon = icon; type = type; cb = fire_up; data_ptr = ptr } ∷ [])
    unfolding template_register register_sized id_text
    register-Grows name icon type fire_up ptr c ts v fits =
        let temp : Template = record {
          id = id_text m.log10 c;
          name = name;
          icon = icon;
          type = type;
          cb = fire_up;
          data_ptr = ptr;
        } in
        let no_wrap : (c + 1) % 2 ^ 32 ≡ c + 1 = omega arith in
        let plain : (c == 2 ^ 31) ≡ false = ground (arith, fits) in
        (
          temp ∷ [],
          refl,
          rw (int_length-defined m.log10 law c plain, no_wrap),
          Issued-append m.log10 law 0 c ts temp refl v,
        )

    Grows-if :
        (b : Bool) (f : Registry → Option Registry) (ls : List Listing)
        → Grows f ls
        → Grows (λ r. if b then f r else some r) (if b then ls else [])
    Grows-if true f ls F = F
    Grows-if false f ls F = Grows-none

    parse_file-Grows :
        (file type : Text) (fire_up : ℕ)
        → Grows (parse_file m file type fire_up) (declared type fire_up (m.ini_parse file))
    unfolding parse_file
    parse_file-Grows file type fire_up =
        let ini = m.ini_parse file in
        let h = handle_all-last_value ini.entries in
        elim (Bool-cases (parse_ini_verbose ini.result)) [
          | inr q ↦ rw q Grows-none
          | inl q ↦ elim (Option-cases (last_value (codes "Name") ini.entries)) [
            | inl n ↦ rw (q, h, n) Grows-none
            | inr (name, n) ↦ elim (Option-cases (last_value (codes "Exec") ini.entries)) [
              | inl x ↦ rw (q, h, n, x) Grows-none
              | inr (exec, x) ↦
                  rw (q, h, n, x)
                    (register-Grows name (last_value (codes "Icon") ini.entries) type fire_up
                      (m.strdup exec))
            ]
          ]
        ]

    parse_entries-Grows :
        (path type : Text) (fire_up : ℕ) (ds : List Dirent)
        → Grows (parse_entries m path type fire_up ds) (declared_in path type fire_up ds)
    unfolding parse_entries declared_in
    parse_entries-Grows path type fire_up [] = Grows-none
    parse_entries-Grows path type fire_up (d ∷ ds) =
        let file : Text = path ++ (b'/' ∷ d.d_name) in
        let first : Registry → Option Registry =
          λ r. if has_ext d then parse_file m file type fire_up r else some r in
        let found : List Listing =
          if has_ext d then declared type fire_up (m.ini_parse file) else [] in
        Grows-then first (parse_entries m path type fire_up ds) found
          (declared_in path type fire_up ds)
          (Grows-if (has_ext d) (parse_file m file type fire_up)
            (declared type fire_up (m.ini_parse file)) (parse_file-Grows file type fire_up))
          (parse_entries-Grows path type fire_up ds)

    parse_dir-Grows :
        (path type : Text) (fire_up : ℕ)
        → Grows (parse_dir m path type fire_up) (declared_by path type fire_up)
    unfolding parse_dir declared_by
    parse_dir-Grows path type fire_up = elim (Option-cases (m.opendir path)) [
      | inl n ↦ rw (parse_dir, declared_by, n) Grows-none
      | inr (ds, e) ↦ rw (parse_dir, declared_by, e) (parse_entries-Grows path type fire_up ds)
    ]

    both_dirs :
        (path local type : Text) (fire_up : ℕ)
        → Grows
            (λ r. parse_dir m path type fire_up r >>= λ s. parse_dir m local type fire_up s)
            (declared_by path type fire_up ++ declared_by local type fire_up)
    both_dirs path local type fire_up =
        Grows-then (parse_dir m path type fire_up) (parse_dir m local type fire_up)
          (declared_by path type fire_up) (declared_by local type fire_up)
          (parse_dir-Grows path type fire_up) (parse_dir-Grows local type fire_up)

    x11_template_init-Grows : Grows (x11_template_init m) (
        declared_by (codes "/usr/share/xsessions/") (codes "x11") m.x11_fire_up
        ++ declared_by (codes "/usr/local/share/xsessions/") (codes "x11") m.x11_fire_up)
    unfolding x11_template_init
    x11_template_init-Grows =
        both_dirs (codes "/usr/share/xsessions/") (codes "/usr/local/share/xsessions/")
          (codes "x11") m.x11_fire_up

    wl_template_init-Grows : Grows (wl_template_init m) (
        declared_by (codes "/usr/share/wayland-sessions/") (codes "wayland") m.wl_fire_up
        ++ declared_by (codes "/usr/local/share/wayland-sessions/") (codes "wayland") m.wl_fire_up)
    unfolding wl_template_init
    wl_template_init-Grows =
        both_dirs (codes "/usr/share/wayland-sessions/")
          (codes "/usr/local/share/wayland-sessions/") (codes "wayland") m.wl_fire_up

    tty_template_init-Grows : Grows (tty_template_init m) (tty_listing ∷ [])
    unfolding tty_template_init
    tty_template_init-Grows =
        register-Grows (codes "tty") (some (codes "utilities-terminal")) (codes "tty") m.tty_fire_up
          0

    -- With a logarithm as documented and at most 2 ^ 31 declared templates: after the start the
    -- registry holds the declared templates, no more and no fewer, in the order of the terminal and the
    -- directories, its counter is their number, and their ids were handed out in that order.
    pub templates_init-declared :
        length declared_all ≤ 2 ^ 31
        → (ts : List Template) × (templates_init m init
            ≡ some (record { array = some ts; counter = length ts }))
          × (map listing ts ≡ declared_all)
          × Issued m.log10 law 0 (length ts) ts
    unfolding templates_init declared_all
    templates_init-declared fits =
        let start : templates_init m init
            ≡ templates_init m (record { array = some []; counter = 0 }) =
          unfold tty_template_init in unfold template_register in refl in
        let (ts, l, e, v) =
          Grows-then (tty_template_init m)
            (λ r. x11_template_init m r >>= λ s. wl_template_init m s) (tty_listing ∷ []) _
            tty_template_init-Grows
            (Grows-then (x11_template_init m) (wl_template_init m) _ _ x11_template_init-Grows
              wl_template_init-Grows)
            0 [] (omega arith) (omega arith) in
        let z : 0 + length ts ≡ length ts = omega arith in
        (ts, rw (start, e, z), l, subst (λ c. Issued m.log10 law 0 c ts) z v)
