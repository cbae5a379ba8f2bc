-- ===== src/FallbackGreeter/Choice.antt =====
-- sp-fallback-greeter/main.c and client.c together: what a typed line asks the daemon for.
use spawny.Base.{
  ℕ, zero, suc, ◌+◌, ◌≡◌, refl, sym, ◌∙◌, false, List, [], ◌∷◌, ◌++◌, map, Option, none, some, Text,
  str_eq, str_eq_refl, take, get_elem?, ltb, ◌==◌, if◌then◌else◌, All, arith, Option-cases,
  Bool-cases, inl, inr,
}
use spawny.Client.{
  ProtoTemplate, ProtoUser, ServerData, Context, Template, User, ℤ, pos, login_try, data_convert,
  strdup_s, find_simular_session, template_convert, user_convert, template_free, user_free,
  zero_template, zero_user,
}
use spawny.Client.Fill.{converted, converted-get_elem?}
use spawny.Client.Data.{fresh_context, fresh_lem, requests-data_convert}
use spawny.FallbackGreeter.{got, newline, first_is, announced, choice, ask_template}

-- The arrays of a context that was converted.
arrays_of :
    (ctx ctx' : Context) (d : ServerData)
    → data_convert ctx d ≡ some ctx'
    → (converted template_free zero_template template_convert 0 d.templates ≡ some ctx'.templates)
      × (converted user_free zero_user (user_convert ctx'.templates) 0 d.users ≡ some ctx'.users)
unfolding fresh_context
arrays_of ctx ctx' d e =
    let f : fresh_context d ≡ some ctx' = sym (fresh_lem ctx d) ∙ e in ground (arith, f)

strdup_s_null : (o : Option Text) → strdup_s o none ≡ o
strdup_s_null none = refl
strdup_s_null (some t) = refl

converted_names :
    (i : ℕ) (ps : List ProtoTemplate) (ts : List Template)
    → converted template_free zero_template template_convert i ps ≡ some ts
    → map (λ (t : Template). t.name) ts ≡ map (λ (p : ProtoTemplate). p.name) ps
unfolding converted
converted_names i [] ts e = let q : [] ≡ ts = ground arith in rw (← q)
converted_names i (p ∷ ps) ts e =
    elim (Option-cases (converted template_free zero_template template_convert (i + 1) ps)) [
      | inl n ↦ absurd (ground (arith, n))
      | inr (us, g) ↦
          let t : Template = record {
            id = i;
            icon = strdup_s p.icon none;
            name = strdup_s p.name none;
          } in
          let q : t ∷ us ≡ ts = ground (arith, g) in
          rw (← q, strdup_s_null p.name, converted_names (i + 1) ps us g)
    ]

-- The templates of other names than the one that is looked for.
abbrev pub Others : Text → List ProtoTemplate → Type 0
Others name =
    All
      (λ (t : ProtoTemplate). (other : Text) × (t.name ≡ some other) × (str_eq name other ≡ false))

find_first :
    (name : Text) (i j : ℕ) (ps : List ProtoTemplate) (ts : List Template) (t : ProtoTemplate)
    → map (λ (t : Template). t.name) ts ≡ map (λ (p : ProtoTemplate). p.name) ps
    → get_elem? ps i ≡ some t
    → t.name ≡ some name
    → Others name (take i ps)
    → find_simular_session (some name) j ts ≡ some (j + i)
unfolding find_simular_session
find_first name i j [] ts t names at n others = cc
find_first name i j (p ∷ ps) [] t names at n others = cc
find_first name zero j (p ∷ ps) (s ∷ ts) t names at n others =
    let first : p ≡ t = ground arith in
    let same : s.name ≡ some name = (let h = names in cc) in
    let z : j + 0 ≡ j = omega arith in rw (same, str_eq_refl name, z)
find_first name (suc i) j (p ∷ ps) (s ∷ ts) t names at n others =
    let (other, o, ne) = others.0 in
    let same : s.name ≡ some other = (let h = names in cc) in
    let rest : map (λ (t : Template). t.name) ts ≡ map (λ (p : ProtoTemplate). p.name) ps =
      (let h = names in cc) in
    let z : j + suc i ≡ j + 1 + i = omega arith in
    rw (same, ne, z) (find_first name i (j + 1) ps ts t rest at n others.1)

module _ (atoi : Text → ℤ) where
  -- In the dialogue after new data, behind lines that are asked again: a line that is no request for
  -- the list and no empty one, and that reads as a number n + 1 of which the data has a template n,
  -- logs in with the id of that template.
  pub ask_template-listed :
      (ctx ctx' : Context) (d : ServerData) (user : User) (def : Template) (name : Text)
      (pw : Option Text) (skipped rest : List Text) (line : Text) (n : ℕ) (t : ProtoTemplate)
      → data_convert ctx d ≡ some ctx'
      → All (λ l. choice atoi user def l ≡ none) skipped
      → first_is b'l' line ≡ false
      → first_is newline line ≡ false
      → atoi line ≡ pos (suc n)
      → get_elem? d.templates n ≡ some t
      → ask_template atoi ctx' user def name pw (skipped ++ line ∷ rest)
        ≡ got (login_try (some name) pw t.id)
  unfolding ask_template choice
  ask_template-listed ctx ctx' d user def name pw [] rest line n t e sk l nl num at =
      let asked = (requests-data_convert ctx ctx' d (some name) pw n e).0 in
      let c : choice atoi user def line ≡ some (pos (suc n)) = ground (arith, l, nl, num) in
      rw (ask_template, c, asked, at)
  ask_template-listed ctx ctx' d user def name pw (s ∷ skipped) rest line n t e sk l nl num at =
      rw (ask_template, sk.0)
        (ask_template-listed ctx ctx' d user def name pw skipped rest line n t e sk.1 l nl num at)

  -- For a user of the data that prefers a template whose name is first found at place `i`: the
  -- greeter's user has `i` as the default, its name is announced unless `i` is 0, and an empty line
  -- logs in with that template exactly if `i` is above 1; for 0 and 1 the line is asked again.
  pub ask_template-default :
      (ctx ctx' : Context) (d : ServerData) (k i : ℕ) (u : ProtoUser) (t : ProtoTemplate)
      (wanted : Text)
      → data_convert ctx d ≡ some ctx'
      → get_elem? d.users k ≡ some u
      → u.prefered_session ≡ some wanted
      → get_elem? d.templates i ≡ some t
      → t.name ≡ some wanted
      → Others wanted (take i d.templates)
      → atoi (newline ∷ []) ≡ pos zero
      → (user : User) × (get_elem? ctx'.users k ≡ some user)
        × (def : Template) × (get_elem? ctx'.templates user.prefered_session ≡ some def)
        × (announced atoi user def ≡ (if i == 0 then none else some (some wanted)))
        × ((name : Text) (pw : Option Text) (rest : List Text)
            → ask_template atoi ctx' user def name pw ((newline ∷ []) ∷ rest) ≡ (
                if ltb 1 i
                then got (login_try (some name) pw t.id)
                else ask_template atoi ctx' user def name pw rest))
  unfolding ask_template choice
  ask_template-default ctx ctx' d k i u t wanted e ku prefer at n others zeroed =
      let (ets, eus) = arrays_of ctx ctx' d e in
      let names = converted_names 0 d.templates ctx'.templates ets in
      let found = find_first wanted i 0 d.templates ctx'.templates t names at n others in
      let ku' =
        converted-get_elem? user_free zero_user (user_convert ctx'.templates) 0 k d.users ctx'.users
          eus in
      let at' =
        converted-get_elem? template_free zero_template template_convert 0 i d.templates
          ctx'.templates ets in
      let zi : 0 + i ≡ i = omega arith in
      let zk : 0 + k ≡ k = omega arith in
      let user : User = record {
        id = k;
        icon = strdup_s u.icon none;
        name = strdup_s u.name none;
        prefered_session = i;
      } in
      let def : Template = record {
        id = i;
        icon = strdup_s t.icon none;
        name = strdup_s t.name none;
      } in
      let def_name : def.name ≡ some wanted = strdup_s_null t.name ∙ n in
      let ku'' : get_elem? ctx'.users k ≡ some user = sym ku' ∙ rw (ku, prefer, found, zi, zk) in
      let at'' : get_elem? ctx'.templates i ≡ some def = sym at' ∙ rw (at, zi) in
      let next : i + 1 ≡ suc i = omega arith in
      (
        user,
        ku'',
        def,
        at'',
        elim (Bool-cases (i == 0)) [ inl q ↦ rw q | inr q ↦ rw (q, def_name) ],
        λ name pw rest. elim (Bool-cases (ltb 1 i)) [
          | inl q ↦
              let asked = (requests-data_convert ctx ctx' d (some name) pw i e).0 in
              rw (ask_template, choice, q, next, asked, at)
          | inr q ↦ rw (ask_template, choice, q, zeroed)
        ],
      )
