-- ===== src/Client/Total.antt =====
-- client.c: when `_data_convert` is defined.
use spawny.Base.{
  ℕ, ◌+◌, ◌≡◌, refl, ◌∙◌, true, List, [], ◌∷◌, Option, none, some, Text, arith, All, is_some,
  Option-cases, Bool-cases, inl, inr, str_eq, All-pure, All-imp,
}
use spawny.Client.{
  ProtoTemplate, ProtoSession, ProtoUser, ServerData, Context, Template, strdup_s,
  find_simular_session, template_convert, session_convert, user_convert, private_session_convert,
  private_template_convert, template_free, session_free, user_free, private_session_free,
  private_template_free, zero_template, zero_session, zero_user, zero_private_session,
  zero_private_template, data_convert,
}
use spawny.Client.Fill.{converted}
use spawny.Client.Data.{fresh_context, fresh_lem}

-- An array is converted where each element is, to elements that satisfy what each conversion gives.
converted_total {ℓ κ μ} :
    {T : Type ℓ} {P : Type κ} (Q : T → Type μ) (ff : T → T) (zeroed : T) (cf : P → T → ℕ → Option T)
    (i : ℕ) (ps : List P)
    → All (λ p. (j : ℕ) → (t : T) × (cf p zeroed j ≡ some t) × Q t) ps
    → (ts : List T) × (converted ff zeroed cf i ps ≡ some ts) × All Q ts
unfolding converted
converted_total Q ff zeroed cf i [] h = ([], refl, tt)
converted_total Q ff zeroed cf i (p ∷ ps) h =
    let (t, e, q) = h.0 i in
    let (ts, es, qs) = converted_total Q ff zeroed cf (i + 1) ps h.1 in
    (t ∷ ts, rw (e, es), (q, qs))

find_simular_session_total :
    (name : Text) (i : ℕ) (ts : List Template)
    → All (λ (t : Template). is_some t.name ≡ true) ts
    → (p : ℕ) × (find_simular_session (some name) i ts ≡ some p)
unfolding find_simular_session
find_simular_session_total name i [] h = (0, refl)
find_simular_session_total name i (t ∷ ts) h = elim (Option-cases t.name) [
  | inl e ↦ absurd (ground (arith, e, h.0))
  | inr (n, e) ↦
      let (p, q) = find_simular_session_total name (i + 1) ts h.1 in
      elim (Bool-cases (str_eq name n)) [ inl s ↦ (i, rw (e, s)) | inr s ↦ (p, rw (e, s) q) ]
]

-- The templates have names, and the users a prefered session.
pub record IsNamed (d : ServerData) : Type 0 where
  pub templates_named : All (λ (p : ProtoTemplate). is_some p.name ≡ true) d.templates
  pub users_prefer : All (λ (p : ProtoUser). is_some p.prefered_session ≡ true) d.users

named :
    (p : ProtoTemplate)
    → is_some p.name ≡ true
    → (j : ℕ)
    → (t : Template) × (template_convert p zero_template j ≡ some t) × (is_some t.name ≡ true)
named p h j = elim (Option-cases p.name) [
  | inl e ↦ absurd (ground (arith, e))
  | inr (n, e) ↦
      (record { id = j; icon = strdup_s p.icon none; name = strdup_s p.name none }, refl, rw e refl)
]

prefers :
    (ts : List Template) (u : ProtoUser)
    → All (λ (t : Template). is_some t.name ≡ true) ts
    → is_some u.prefered_session ≡ true
    → (j : ℕ) → (v : spawny.Client.User) × (user_convert ts u zero_user j ≡ some v) × Unit {0}
prefers ts u h k j = elim (Option-cases u.prefered_session) [
  | inl e ↦ absurd (ground (arith, e))
  | inr (n, e) ↦
      let (p, q) = find_simular_session_total n 0 ts h in
      (
        record {
          id = j;
          icon = strdup_s u.icon none;
          name = strdup_s u.name none;
          prefered_session = p;
        },
        rw (e, q),
        tt,
      )
]

pub data_convert_total :
    (ctx : Context) (d : ServerData)
    → IsNamed d
    → (ctx' : Context) × (data_convert ctx d ≡ some ctx')
unfolding fresh_context
data_convert_total ctx d h =
    let (ts, e, n) =
      converted_total (λ (t : Template). is_some t.name ≡ true) template_free zero_template
        template_convert 0 d.templates (All-imp _ _ d.templates named h.templates_named) in
    let (ss, f, _) =
      converted_total (λ _. Unit {0}) session_free zero_session session_convert 0 d.sessions
        (All-pure _ d.sessions (λ p j. (_, refl, tt))) in
    let (us, g, _) =
      converted_total (λ _. Unit {0}) user_free zero_user (user_convert ts) 0 d.users
        (All-imp _ _ d.users (λ u k. prefers ts u n k) h.users_prefer) in
    let (ps, k, _) =
      converted_total (λ _. Unit {0}) private_session_free zero_private_session
        private_session_convert 0 d.sessions (All-pure _ d.sessions (λ p j. (_, refl, tt))) in
    let (pt, l, _) =
      converted_total (λ _. Unit {0}) private_template_free zero_private_template
        private_template_convert 0 d.templates (All-pure _ d.templates (λ p j. (_, refl, tt))) in
    let ctx' : Context = record {
      templates = ts;
      sessions = ss;
      users = us;
      private_sessions = ps;
      private_templates = pt;
    } in
    (ctx', fresh_lem ctx d ∙ rw (e, f, g, k, l))
