-- ===== src/Desktop/Keys.antt =====
-- desktop_common.c: which entries of a .desktop file count.
use spawny.Base.{
  ◌≡◌, refl, sym, ◌∙◌, true, false, List, [], ◌∷◌, Option, none, some, Text, codes, str_eq,
  str_eq_iff, inl, inr, Bool-cases, Option-cases, if◌then◌else◌,
}
use spawny.UserDb.Files.{Entry}
use spawny.Desktop.{Session, no_session, parse_file_handler, handle_all}

-- The value of the last entry of that key, whatever its section.
unfoldable pub last_value : Text → List Entry → Option Text
last_value key [] = none
last_value key (e ∷ es) = elim (last_value key es) [
  | none ↦ if str_eq e.name key then some e.value else none
  | some v ↦ some v
]

abbrev over : Option Text → Option Text → Option Text
over none old = old
over (some v) old = some v

other_key : (a b : Text) (n : Text) → str_eq b a ≡ false → str_eq n a ≡ true → str_eq n b ≡ false
other_key a b n d h = elim (Bool-cases (str_eq n b)) [
  | inl q ↦
      let x : n ≡ a = (str_eq_iff n a).0 h in
      let y : n ≡ b = (str_eq_iff n b).0 q in
      let z : str_eq b a ≡ true = (str_eq_iff b a).1 (sym y ∙ x) in cc
  | inr q ↦ q
]

over_step :
    (key : Text) (e : Entry) (es : List Entry) (old new : Option Text)
    → new ≡ (if str_eq e.name key then some e.value else old)
    → over (last_value key es) new ≡ over (last_value key (e ∷ es)) old
unfolding last_value
over_step key e es old new h = elim (Option-cases (last_value key es)) [
  | inl n ↦ elim (Bool-cases (str_eq e.name key)) [ inl q ↦ rw (n, h, q) | inr q ↦ rw (n, h, q) ]
  | inr (v, q) ↦ rw q
]

-- What one call of the handler writes.
handler_lem :
    (s : Session) (e : Entry)
    → let s' = (parse_file_handler s e).0 in
      (s'.name ≡ (if str_eq e.name (codes "Name") then some e.value else s.name))
      × (s'.exec ≡ (if str_eq e.name (codes "Exec") then some e.value else s.exec))
      × (s'.icon ≡ (if str_eq e.name (codes "Icon") then some e.value else s.icon))
unfolding parse_file_handler
handler_lem s e = elim (Bool-cases (str_eq e.name (codes "Name"))) [
  | inl q ↦
      let x = other_key (codes "Name") (codes "Exec") e.name (unfold str_eq in refl) q in
      let y = other_key (codes "Name") (codes "Icon") e.name (unfold str_eq in refl) q in
      (rw q, rw (q, x), rw (q, y))
  | inr q ↦ elim (Bool-cases (str_eq e.name (codes "Exec"))) [
    | inl r ↦
        let y = other_key (codes "Exec") (codes "Icon") e.name (unfold str_eq in refl) r in
        (rw (q, r), rw (q, r), rw (q, r, y))
    | inr r ↦ elim (Bool-cases (str_eq e.name (codes "Icon"))) [
      | inl t ↦ (rw (q, r, t), rw (q, r, t), rw (q, r, t))
      | inr t ↦ (rw (q, r, t), rw (q, r, t), rw (q, r, t))
    ]
  ]
]

handle_all-over :
    (s : Session) (es : List Entry)
    → handle_all s es ≡ record {
      name = over (last_value (codes "Name") es) s.name;
      exec = over (last_value (codes "Exec") es) s.exec;
      icon = over (last_value (codes "Icon") es) s.icon;
    }
unfolding handle_all last_value
handle_all-over s [] = refl
handle_all-over s (e ∷ es) =
    let s' = (parse_file_handler s e).0 in
    let (n, x, i) = handler_lem s e in
    let a = over_step (codes "Name") e es s.name s'.name n in
    let b = over_step (codes "Exec") e es s.exec s'.exec x in
    let c = over_step (codes "Icon") e es s.icon s'.icon i in handle_all-over s' es ∙ cc (a, b, c)

over-none : (o : Option Text) → over o none ≡ o
over-none none = refl
over-none (some v) = refl

-- After all entries of a file were handled, `name`, `exec` and `icon` hold the value of the last
-- entry of the key Name, Exec and Icon, whatever its section, and NULL without such an entry.
pub handle_all-last_value :
    (es : List Entry)
    → handle_all no_session es ≡ record {
      name = last_value (codes "Name") es;
      exec = last_value (codes "Exec") es;
      icon = last_value (codes "Icon") es;
    }
handle_all-last_value es =
    handle_all-over no_session es
    ∙ rw (
      over-none (last_value (codes "Name") es),
      over-none (last_value (codes "Exec") es),
      over-none (last_value (codes "Icon") es),
    )
