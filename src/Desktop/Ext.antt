-- ===== src/Desktop/Ext.antt =====
-- desktop_common.c: which names `parse_dir` takes for .desktop files.
use spawny.Base.{
  ℕ, zero, suc, ◌+◌, ◌-◌, ◌≤◌, ◌≡◌, ◌↔◌, refl, ap, sym, ◌∙◌, true, [], ◌∷◌, ◌++◌, Text, codes,
  str_eq_iff, str_eq_refl, length, take, drop, length-append, drop-append, arith,
}
use spawny.Desktop.{Dirent, has_ext}

take-drop : (n : ℕ) (xs : Text) → take n xs ++ drop n xs ≡ xs
take-drop zero xs = refl
take-drop (suc n) [] = refl
take-drop (suc n) (x ∷ xs) = ap (◌∷◌ x) (take-drop n xs)

-- Where 8 bytes or more stand up to the end of a directory entry's name, the bytes in front of it
-- in `struct dirent` counted, the entry is taken for a .desktop file exactly if those bytes, name
-- included, end in ".desktop".
pub has_ext_iff :
    (d : Dirent)
    → 8 ≤ length d.before + length d.d_name
    → (has_ext d ≡ true) ↔ ((front : Text) × (d.before ++ d.d_name ≡ front ++ codes ".desktop"))
unfolding has_ext
has_ext_iff d long =
    let all = d.before ++ d.d_name in
    let at = length d.before + length d.d_name - 8 in
    let total : length all ≡ length d.before + length d.d_name = length-append d.before d.d_name in
    (
      λ h. (
        take at all,
        sym (take-drop at all)
            ∙ ap (λ (t : Text). take at all ++ t)
                ((str_eq_iff (drop at all) (codes ".desktop")).0 h),
      ),
      λ (front, e).
          let l : length all ≡ length front + 8 =
            ap length e ∙ length-append front (codes ".desktop") in
          let place : at ≡ length front = omega (arith, l, total) in
          rw (e, place, drop-append front (codes ".desktop")) (str_eq_refl (codes ".desktop")),
    )
