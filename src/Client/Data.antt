-- ===== src/Client/Data.antt =====
-- client.c: what `_data_convert` makes of the daemon's data, and the requests that follow it.
use spawny.Base.{
  ℕ, ◌≡◌, refl, sym, ◌∙◌, List, Option, none, some, Text, arith, get_elem?, ◌>>=◌, Option-cases,
  inl, inr,
}
use mathlib.Core.Option
use spawny.Client.{
  ProtoTemplate, ProtoSession, ServerData, ProtoUser, Context, Template, User, strdup_s,
  template_convert, session_convert, user_convert, private_session_convert,
  private_template_convert, template_free, session_free, user_free, private_session_free,
  private_template_free, zero_template, zero_session, zero_user, zero_private_session,
  zero_private_template, data_convert, pos, negsuc, login_try, session_activation, sp_client_login,
  sp_client_session_activate,
}
use spawny.Client.Fill.{converted, fill_array-converted, converted-get_elem?}

-- The context that the data alone determines.
unfoldable pub fresh_context : ServerData → Option Context
fresh_context d = do
  ts ← converted template_free zero_template template_convert 0 d.templates
  ss ← converted session_free zero_session session_convert 0 d.sessions
  us ← converted user_free zero_user (user_convert ts) 0 d.users
  ps ← converted private_session_free zero_private_session private_session_convert 0 d.sessions
  pt ← converted private_template_free zero_private_template private_template_convert 0 d.templates
  some (record {
    templates = ts;
    sessions = ss;
    users = us;
    private_sessions = ps;
    private_templates = pt;
  })

bind_ext :
    {A B : Type 0} (o : Option A) (f g : A → Option B)
    → ((a : A) → f a ≡ g a)
    → (o >>= f) ≡ (o >>= g)
bind_ext none f g h = refl
bind_ext (some a) f g h = h a

forgets_user :
    (ts : List Template) (p : ProtoUser) (u : User) (i : ℕ)
    → user_convert ts p (user_free u) i ≡ user_convert ts p zero_user i
forgets_user ts p u i = refl

pub fresh_lem : (ctx : Context) (d : ServerData) → data_convert ctx d ≡ fresh_context d
unfolding data_convert fresh_context
fresh_lem ctx d =
    rw
      (fill_array-converted template_free zero_template template_convert (λ p t i. refl)
        ctx.templates d.templates)
      (bind_ext (converted template_free zero_template template_convert 0 d.templates) _ _ (λ ts.
        rw (
          fill_array-converted session_free zero_session session_convert (λ p t i. refl)
              ctx.sessions d.sessions,
          fill_array-converted user_free zero_user (user_convert ts) (forgets_user ts) ctx.users
              d.users,
          fill_array-converted private_session_free zero_private_session private_session_convert
              (λ p t i. refl) ctx.private_sessions d.sessions,
          fill_array-converted private_template_free zero_private_template private_template_convert
              (λ p t i. refl) ctx.private_templates d.templates,
        )))

-- What the greeter held before does not show in what it holds after new data.
pub data_convert_forgets : (a b : Context) (d : ServerData) → data_convert a d ≡ data_convert b d
data_convert_forgets a b d = fresh_lem a d ∙ sym (fresh_lem b d)

-- The private arrays of a context that was converted.
pub private_of :
    (ctx ctx' : Context) (d : ServerData)
    → data_convert ctx d ≡ some ctx'
    → (converted private_session_free zero_private_session private_session_convert 0 d.sessions
        ≡ some ctx'.private_sessions)
      × (converted private_template_free zero_private_template private_template_convert 0
            d.templates
          ≡ some ctx'.private_templates)
unfolding fresh_context
private_of ctx ctx' d e =
    let f : fresh_context d ≡ some ctx' = sym (fresh_lem ctx d) ∙ e in ground (arith, f)

strdup_s_null : (o : Option Text) → strdup_s o none ≡ o
strdup_s_null none = refl
strdup_s_null (some t) = refl

-- After new data that was converted, a login with template number `n` asks for the id of that
-- template of the data, and an activation of session number `n` for the id of that session; a
-- number behind the last or below zero asks for nothing.
pub requests-data_convert :
    (ctx ctx' : Context) (d : ServerData) (usr pw : Option Text) (n : ℕ)
    → data_convert ctx d ≡ some ctx'
    → (sp_client_login ctx' usr pw (pos n)
        ≡ Option.map (λ (t : ProtoTemplate). login_try usr pw t.id) (get_elem? d.templates n))
      × (sp_client_session_activate ctx' (pos n)
          ≡ Option.map (λ (s : ProtoSession). session_activation s.id) (get_elem? d.sessions n))
      × (sp_client_login ctx' usr pw (negsuc n) ≡ none)
      × (sp_client_session_activate ctx' (negsuc n) ≡ none)
unfolding sp_client_login sp_client_session_activate
requests-data_convert ctx ctx' d usr pw n e =
    let (s, t) = private_of ctx ctx' d e in
    let ts =
      converted-get_elem? private_template_free zero_private_template private_template_convert 0 n
        d.templates _ t in
    let ss =
      converted-get_elem? private_session_free zero_private_session private_session_convert 0 n
        d.sessions _ s in
    (
      rw (← ts) (elim (Option-cases (get_elem? d.templates n)) [
        | inl q ↦ rw q refl
        | inr (x, q) ↦ rw (q, strdup_s_null x.id)
      ]),
      rw (← ss) (elim (Option-cases (get_elem? d.sessions n)) [
        | inl q ↦ rw q refl
        | inr (x, q) ↦ rw (q, strdup_s_null x.id)
      ]),
      refl,
      refl,
    )
