-- ===== src/Examples/Tools.antt =====
-- The small programs and mkpath at concrete inputs.
use spawny.Base.{
  Bool, ◌≡◌, ◌↔◌, ◌⊎◌, true, false, ◌||◌, List, [], ◌∷◌, none, some, Text, codes, str_eq,
  str_eq_refl, inl, inr, arith, if◌then◌else◌, Bool-cases,
}
use spawny.Tools.{Files, greeter_set, IsLinked, greeter_set_outcome}
use spawny.Util.{Directories}

abbrev member : Text → List Text → Bool
member q [] = false
member q (p ∷ ps) = str_eq p q || member q ps

abbrev greeter : Text
greeter = codes "greeter"

-- The files that can be read; `link` makes one more, and none that is there.
abbrev files : Files (List Text)
files = record {
  readable = λ w path. member path w;
  unlink = λ w path. w;
  link = λ w from to. if member to w then none else if member from w then some (to ∷ w) else none;
}

files-IsLinked : IsLinked files greeter
files-IsLinked = record {
  exists = λ w from to h. rw h;
  made = λ w w' from to h. elim (Bool-cases (member to w)) [
    | inl q ↦ absurd (ground (arith, q))
    | inr q ↦ elim (Bool-cases (member from w)) [
      | inl r ↦ let made : to ∷ w ≡ w' = ground (arith, q, r) in rw (← made, r, str_eq_refl to)
      | inr r ↦ absurd (ground (arith, q, r))
    ]
  ];
}

set_example :
    ((greeter_set files greeter (codes "mine" ∷ []) (codes "mine" ∷ [])
        ≡ (greeter ∷ codes "mine" ∷ [], 0))
      ↔ ((bin : Text) × (◌≡◌ {A = List Text} (codes "mine" ∷ []) (bin ∷ []))
          × (member bin (codes "mine" ∷ []) ≡ true)
          × (member greeter (codes "mine" ∷ []) ≡ false)
          × (files.link (codes "mine" ∷ []) bin greeter ≡ some (greeter ∷ codes "mine" ∷ []))
          × (member greeter (greeter ∷ codes "mine" ∷ []) ≡ member bin (codes "mine" ∷ []))))
    × ((member greeter (codes "mine" ∷ []) ≡ false)
        ⊎ (greeter_set files greeter (codes "mine" ∷ []) (codes "mine" ∷ [])
            ≡ (codes "mine" ∷ [], 1)))
set_example =
    greeter_set_outcome files greeter files-IsLinked (codes "mine" ∷ []) (codes "mine" ∷ [])
      (greeter ∷ codes "mine" ∷ [])

-- One directory above the others, which can be reached.
abbrev directories : Directories (List Text)
directories = record {
  dirname = λ path. codes "/";
  access = λ w path. str_eq path (codes "/");
  mkdir = λ w path mode. if member path w then (w, false) else (path ∷ w, true);
}
