-- ===== src/Templates/Laws.antt =====
-- templatereg.c: what registering, unregistering, listing and shutting down do.
use spawny.Base.{
  ℕ, suc, ◌+◌, ◌%◌, ◌^◌, ◌<◌, ◌≡◌, ◌↔◌, refl, ap, ◌∙◌, Bool, true, false, List, [], ◌∷◌, ◌++◌, ◌==◌,
  map, arith, Text, Option, none, some, str_eq, str_eq_refl, lt→ltb, length, get_elem?,
  get_elem?-map, delete_at, Option-cases, inl, inr,
}
use spawny.Templates.{
  Template, Registry, details, find_temp, id_text, template_register, register_sized, unregister_in,
  template_unregister, template_details_get, template_run, template_get, drain, template_shutdown,
}
use spawny.Templates.Ids.{IsLog, int_length-defined}
use spawny.Templates.Find.{
  Issued, IsValid, find_temp_fresh, Issued-append, found_details-append, find_temp-delete_at,
  find_temp-get_elem?,
}

module _ (log10 : ℕ → ℕ) (law : IsLog log10) where
  -- With a logarithm as documented, a valid registry and a counter that does not wrap and is not 2 ^
  -- 31: a registration with a name and a function gives an id that was not found before, under which
  -- exactly the given details are found after; the registry stays valid, and every other id answers
  -- as before.
  pub register-details :
      (name type : Text) (icon : Option Text) (fire_up ptr c : ℕ) (ts : List Template)
      → Issued log10 law 0 c ts
      → c + 1 < 2 ^ 32
      → (c == 2 ^ 31) ≡ false
      → let r : Registry = record { array = some ts; counter = c } in
        let id = id_text log10 c in
        (r' : Registry) × (template_register log10 (some name) icon type (some fire_up) ptr r
          ≡ some (r', some id))
        × IsValid log10 law r'
        × (template_details_get id r ≡ some none)
        × (template_details_get id r'
            ≡ some (some (record { name = name; icon = icon; type = type })))
        × ((other : Text)
            → str_eq other id ≡ false
            → template_details_get other r' ≡ template_details_get other r)
  unfolding template_register register_sized template_details_get id_text
  register-details name type icon fire_up ptr c ts v room defined =
      let id = id_text log10 c in
      let temp : Template = record {
        id = id;
        name = name;
        icon = icon;
        type = type;
        cb = fire_up;
        data_ptr = ptr;
      } in
      let fresh =
        find_temp_fresh log10 law c 0 c ts (omega arith) v (inr (omega arith)) (omega arith) in
      let no_wrap : (c + 1) % 2 ^ 32 ≡ c + 1 = omega arith in
      (
        record { array = some (ts ++ temp ∷ []); counter = c + 1 },
        rw (int_length-defined log10 law c defined, no_wrap),
        (Issued-append log10 law 0 c ts temp refl v),
        rw fresh,
        ap some (found_details-append log10 law id ts temp fresh ∙ rw (str_eq_refl id)),
        λ other ne. ap some (found_details-append log10 law other ts temp fresh ∙ rw ne),
      )

  -- In a valid registry: unregistering an id succeeds exactly if the id was found, the id is not
  -- found after, the registry stays valid, and every other id answers as before.
  pub unregister-details :
      (id : Text) (c : ℕ) (ts : List Template)
      → Issued log10 law 0 c ts
      → c < 2 ^ 32
      → let r : Registry = record { array = some ts; counter = c } in
        (r' : Registry) × (found : Bool) × (template_unregister id r ≡ some (r', found))
        × IsValid log10 law r'
        × (template_details_get id r' ≡ some none)
        × ((found ≡ false) ↔ (template_details_get id r ≡ some none))
        × ((other : Text)
            → str_eq other id ≡ false
            → template_details_get other r' ≡ template_details_get other r)
  unfolding template_unregister template_details_get
  unregister-details id c ts v fits = elim (Option-cases (find_temp id ts)) [
    | inl e ↦ (
      record { array = some ts; counter = c },
      false,
      rw (e, unregister_in),
      v,
      rw e,
      (λ _. rw e, λ _. refl),
      λ other ne. refl,
    )
    | inr ((i, t), e) ↦
        let (gone, issued, kept) = find_temp-delete_at log10 law 0 c id ts i t fits v e in
        (
          record { array = some (delete_at i ts); counter = c },
          true,
          rw (e, unregister_in),
          issued,
          rw gone,
          (λ q. cc, λ q. ground (arith, e)),
          λ other ne. ap some (kept other ne),
        )
  ]

  -- In a valid registry of fewer than 2 ^ 31 templates, for each template: `template_get` lists its
  -- id at the template's place, and that id gives its details and runs its function with its data.
  pub get-details :
      (c i : ℕ) (ts : List Template) (t : Template)
      → Issued log10 law 0 c ts
      → c < 2 ^ 32
      → length ts < 2 ^ 31
      → get_elem? ts i ≡ some t
      → let r : Registry = record { array = some ts; counter = c } in
        (ids : List Text) × (template_get r ≡ some ids)
        × (get_elem? ids i ≡ some t.id)
        × (template_details_get t.id r ≡ some (some (details t)))
        × (template_run t.id r ≡ some (some (t.cb, t.data_ptr)))
  unfolding template_get template_details_get template_run
  get-details c i ts t v fits few e =
      let found = find_temp-get_elem? log10 law 0 c i ts t fits v e in
      (
        map (λ t. t.id) ts,
        rw (lt→ltb (length ts) (2 ^ 31) few),
        get_elem?-map (λ (t : Template). t.id) i ts t e,
        rw found,
        rw found,
      )

unregister_head : (t : Template) (ts : List Template) → (unregister_in t.id (t ∷ ts)).0 ≡ ts
unfolding unregister_in find_temp
unregister_head t ts = rw (unregister_in, find_temp, str_eq_refl t.id)

-- The loop of `template_shutdown` empties any array in one round for each template.
drain_lem : (ts : List Template) → drain (suc (length ts)) ts ≡ some []
unfolding drain
drain_lem [] = refl
drain_lem (t ∷ ts) = ap (drain (suc (length ts))) (unregister_head t ts) ∙ drain_lem ts

-- `template_shutdown` ends, with one round for each registered template and one to see that none
-- is left.
pub template_shutdown_ends :
    (ts : List Template) (c : ℕ)
    → template_shutdown (suc (length ts)) (record { array = some ts; counter = c }) ≡ some tt
unfolding template_shutdown
template_shutdown_ends ts c = rw (drain_lem ts)
