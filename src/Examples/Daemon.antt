-- ===== src/Examples/Daemon.antt =====
-- array.c, templatereg.c and spawnregistery.c at concrete inputs.
use spawny.Base.{
  ℕ, Bool, get_elem?, ◌++◌, ◌↔◌, ◌≡◌, refl, false, List, [], ◌∷◌, none, some, Text, codes, arith,
  str_eq,
}
use spawny.Array.{Array, array_add, array_del}
use spawny.Array.Refine.{Holds, store, array_add-Holds, array_del-Holds}
use spawny.Templates.{
  Template, Registry, template_register, template_unregister, template_details_get, template_get,
  template_run, id_text, details,
}
use spawny.Templates.Find.{Issued, IsValid}
use spawny.Templates.Laws.{register-details, unregister-details, get-details}
use spawny.SpawnRegistry.{Waiting, spawnregistery_eval, Request, listens}
use spawny.SpawnRegistry.Eval.{eval_served}
use spawny.Examples.Log.{log10, log10-IsLog}

abbrev rows : List (List ℕ)
rows = (1 ∷ (2 ∷ [])) ∷ ((3 ∷ (4 ∷ [])) ∷ ((5 ∷ (6 ∷ [])) ∷ []))

abbrev table : Array
table = record { ptr = 1 ∷ (2 ∷ (3 ∷ (4 ∷ (5 ∷ (6 ∷ []))))); size = 2; len = 3 }

table-Holds : Holds table rows
table-Holds = record {
  rows = (refl, (refl, (refl, tt)));
  block = refl;
  count = refl;
  len_fits = omega arith;
  size_fits = omega arith;
}

abbrev fresh_byte : ℕ → ℕ
fresh_byte n = 255

array_del_example : Holds (array_del fresh_byte table 1) ((1 ∷ (2 ∷ [])) ∷ ((5 ∷ (6 ∷ [])) ∷ []))
array_del_example = array_del-Holds fresh_byte table rows 1 table-Holds

array_add_example :
    let (grown, off) = array_add fresh_byte table in
    Holds
      (record grown { ptr = store grown.ptr off (7 ∷ (8 ∷ [])) })
      ((1 ∷ (2 ∷ [])) ∷ ((3 ∷ (4 ∷ [])) ∷ ((5 ∷ (6 ∷ [])) ∷ ((7 ∷ (8 ∷ [])) ∷ []))))
array_add_example =
    array_add-Holds fresh_byte table rows (7 ∷ (8 ∷ [])) table-Holds refl (omega arith)

abbrev template : ℕ → Template
template n = record {
  id = id_text log10 n;
  name = codes "Xfce";
  icon = none;
  type = codes "x11";
  cb = 100;
  data_ptr = n;
}

abbrev two_templates : List Template
two_templates = template 0 ∷ (template 1 ∷ [])

two_templates-Issued : Issued log10 log10-IsLog 0 2 two_templates
two_templates-Issued = (0, omega arith, refl, (1, omega arith, refl, omega arith))

register_example :
    let r : Registry = record { array = some two_templates; counter = 2 } in
    let id = id_text log10 2 in
    (r' : Registry) × (template_register log10 (some (codes "i3")) none (codes "x11") (some 200) 9 r
      ≡ some (r', some id))
    × IsValid log10 log10-IsLog r'
    × (template_details_get id r ≡ some none)
    × (template_details_get id r'
        ≡ some (some (record { name = codes "i3"; icon = none; type = codes "x11" })))
    × ((other : Text)
        → str_eq other id ≡ false
        → template_details_get other r' ≡ template_details_get other r)
register_example =
    register-details log10 log10-IsLog (codes "i3") (codes "x11") none 200 9 2 two_templates
      two_templates-Issued (omega arith) refl

unregister_example :
    let r : Registry = record { array = some two_templates; counter = 2 } in
    let id = id_text log10 0 in
    (r' : Registry) × (found : Bool) × (template_unregister id r ≡ some (r', found))
    × IsValid log10 log10-IsLog r'
    × (template_details_get id r' ≡ some none)
    × ((found ≡ false) ↔ (template_details_get id r ≡ some none))
    × ((other : Text)
        → str_eq other id ≡ false
        → template_details_get other r' ≡ template_details_get other r)
unregister_example =
    unregister-details log10 log10-IsLog (id_text log10 0) 2 two_templates two_templates-Issued
      (omega arith)

get_example :
    let r : Registry = record { array = some two_templates; counter = 2 } in
    (ids : List Text) × (template_get r ≡ some ids)
    × (get_elem? ids 1 ≡ some (id_text log10 1))
    × (template_details_get (id_text log10 1) r ≡ some (some (details (template 1))))
    × (template_run (id_text log10 1) r ≡ some (some (100, 1)))
get_example =
    get-details log10 log10-IsLog 2 1 two_templates (template 1) two_templates-Issued (omega arith)
      (omega arith) refl

abbrev seven : ℕ
seven = 7

abbrev eight : ℕ
eight = 8

abbrev waiting : ℕ → ℕ → Waiting
waiting pid handler = record { pid = pid; handler = handler; data_ptr = 50 }

abbrev pending : List Waiting
pending = waiting 300 1 ∷ (waiting 400 2 ∷ (waiting 300 3 ∷ []))

-- Each handler that is called writes its number down and listens to the process 900.
abbrev react : ℕ → ℕ → ℕ → ℕ → List ℕ → List ℕ × List Request
react handler ptr status pid calls = (calls ++ handler ∷ [], listens 900 7 ptr ∷ [])

eval_example :
    spawnregistery_eval react 6
      ((300, 0) ∷ [])
      ([], record { pending_process = pending; eval_mode = false })
    ≡ some (
      1 ∷ (3 ∷ []),
      record {
        pending_process = waiting 400 2 ∷ (waiting 900 7 ∷ (waiting 900 7 ∷ []));
        eval_mode = false;
      },
    )
eval_example =
    eval_served react 6 300 0 pending [] (λ handler ptr status calls. (refl, refl, tt)) refl
      (refl, (refl, (refl, tt)), (refl, (refl, tt), (refl, tt, tt))) (omega arith)
