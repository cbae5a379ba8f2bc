-- ===== src/Tools.antt =====
-- sp-greeter-set/main.c and sp-greeter-start/main.c. The files are a state `W`; `access`, `unlink` and
-- `link` are parameters. A status 1 is EXIT_FAILURE.
use spawny.Base.{
  ℕ, ◌≡◌, ◌↔◌, ◌⊎◌, refl, sym, ap, ◌∙◌, Bool, true, false, not, List, [], ◌∷◌, Option, none, some,
  Text, arith, Bool-cases, Option-cases, inl, inr, if◌then◌else◌,
}
use spawny.Client.Read.{Service, Incoming, sp_client_greeter_start}

pub record Files (W : Type 0) : Type 0 where
  -- `access (path, R_OK) == 0`
  pub readable : W → Text → Bool
  pub unlink : W → Text → W
  -- `link (from, to)`; `none` is -1
  pub link : W → Text → Text → Option W

-- `main` of sp-greeter-set, over the arguments behind the first: the files and the status.
module _ {W : Type 0} (fs : Files W) (sp_greeter : Text) where
  unfoldable pub greeter_set : List Text → W → W × ℕ
  greeter_set [] w = (w, 1)
  greeter_set (bin ∷ []) w =
      let cleared = if not (fs.readable w sp_greeter) then fs.unlink w sp_greeter else w in
      let linked : W × ℕ = elim (fs.link cleared bin sp_greeter) [
        | none ↦ (cleared, 1)
        | some w' ↦ (w', 0)
      ] in
      if not (fs.readable w bin) then (w, 1) else linked
  greeter_set (bin ∷ (more ∷ args)) w = (w, 1)

  -- What is known of `link`: it does not replace a file, and makes the same file readable there.
  pub record IsLinked : Type 0 where
    pub exists : (w : W) (from to : Text) → fs.readable w to ≡ true → fs.link w from to ≡ none
    pub made :
        (w w' : W) (from to : Text)
        → fs.link w from to ≡ some w'
        → fs.readable w' to ≡ fs.readable w from

  -- With `link` as documented: sp-greeter-set succeeds exactly with one argument that can be read,
  -- where no greeter is set that can be read, and the argument can be linked once the old one is
  -- unlinked; it leaves that link, through which the new greeter can be read if the unlinking keeps
  -- the argument. Where a greeter is set that can be read it fails and changes nothing.
  pub greeter_set_outcome :
      (law : IsLinked) (args : List Text) (w w' : W)
      → ((greeter_set args w ≡ (w', 0)) ↔ (
          (bin : Text) × (args ≡ bin ∷ [])
          × (fs.readable w bin ≡ true)
          × (fs.readable w sp_greeter ≡ false)
          × (fs.link (fs.unlink w sp_greeter) bin sp_greeter ≡ some w')
          × (fs.readable w' sp_greeter ≡ fs.readable (fs.unlink w sp_greeter) bin)))
        × ((fs.readable w sp_greeter ≡ false) ⊎ (greeter_set args w ≡ (w, 1)))
  unfolding greeter_set
  greeter_set_outcome law [] w w' = ((λ h. cc, λ x. let e = x.1 in cc), inr refl)
  greeter_set_outcome law (bin ∷ (more ∷ args)) w w' = ((λ h. cc, λ x. let e = x.1 in cc), inr refl)
  greeter_set_outcome law (bin ∷ []) w w' = elim (Bool-cases (fs.readable w sp_greeter)) [
    | inl q ↦
        let kept : greeter_set (bin ∷ []) w ≡ (w, 1) =
          ground (arith, q, law.exists w bin sp_greeter q) in
        ((λ h. cc (sym kept ∙ h), λ x. let f = x.3 in cc), inr kept)
    | inr q ↦ (
      (
        λ h. elim (Option-cases (fs.link (fs.unlink w sp_greeter) bin sp_greeter)) [
          | inl n ↦ absurd (ground (arith, q, n))
          | inr (v, n) ↦
              let same : v ≡ w' = ground (arith, q, n) in
              let there : fs.readable w bin ≡ true = ground (arith, q, n) in
              let l : fs.link (fs.unlink w sp_greeter) bin sp_greeter ≡ some w' =
                n ∙ ap some same in
              (bin, refl, there, q, l, law.made _ w' bin sp_greeter l)
        ],
        λ (b, e, r, f, l, _).
            let same : bin ≡ b = ground arith in
            let l' : fs.link (fs.unlink w sp_greeter) bin sp_greeter ≡ some w' = rw same l in
            let r' : fs.readable w bin ≡ true = rw same r in ground (arith, q, l', r'),
      ),
      inl q,
    )
  ]

-- `main` of sp-greeter-start: its status.
unfoldable pub greeter_start : Service → List Text → Incoming → ℕ
greeter_start s args incoming = if not (sp_client_greeter_start s args incoming) then 1 else 0
