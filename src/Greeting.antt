-- ===== src/Greeting.antt =====
-- server.c, templatereg.c, user_db.c, sessionmgt_logind.c and client.c together: what the daemon
-- tells a greeter, and the requests that the greeter makes of it. What becomes of a message when it
-- is packed and unpacked (protobuf-c) is a parameter.
pub mod Startup
use mathlib.Core.Option
use spawny.Base.{
  ℕ, ◌^◌, ◌≤◌, ◌<◌, ◌≡◌, refl, sym, ap, ◌∙◌, true, List, [], ◌∷◌, map, Option, none, some, Text,
  codes, arith, length, All, All-pure, All-imp, is_some, get_elem?, get_elem?-map, All-map, Zipped,
  Zipped-get_elem?, Zipped-get_elem?-none, All-Zipped, zero, suc, Option-cases, inl, inr,
}
use spawny.Templates.{Template, Registry, template_run}
use spawny.Templates.Ids.{IsLog}
use spawny.Templates.Find.{Issued}
use spawny.Templates.Laws.{get-details}
use spawny.UserDb.{User}
use spawny.UserDb.Files.{Passwd, System, load_dir}
use spawny.Sessions.{session_enumerate}
use spawny.Client.{
  ProtoTemplate, ProtoSession, ProtoUser, ServerData, data_convert, pos, login_try,
  session_activation, sp_client_login, sp_client_session_activate,
}
use spawny.Client.Data.{requests-data_convert}
use spawny.Client.Total.{IsNamed, data_convert_total}
use spawny.Server.Data.{Host, start_user, load_data}
use spawny.Server.Data.Templates.{load_templates-shown}
use spawny.Server.Data.Users.{value, load_users-load_dir}
use spawny.Server.Data.Sessions.{visible, visible_identified, AreUsable, load_sessions-visible}
use spawny.Server.Data.Templates
use spawny.Server.Data.Users

-- A required string arrives as it was sent, and NULL as some string.
abbrev pub Carries : Option Text → Option Text → Type 0
Carries none received = is_some received ≡ true
Carries (some text) received = received ≡ some text

-- What is known of packing and unpacking data: every element arrives, in order, with its fields.
pub record IsCarried (sent received : ServerData) : Type 0 where
  pub templates :
      Zipped
        (λ (t t' : ProtoTemplate). Carries t.id t'.id × Carries t.name t'.name)
        sent.templates
        received.templates
  pub sessions :
      Zipped (λ (s s' : ProtoSession). Carries s.id s'.id) sent.sessions received.sessions
  pub users :
      Zipped
        (λ (u u' : ProtoUser). Carries u.prefered_session u'.prefered_session)
        sent.users
        received.users

Carries_some : (o o' : Option Text) → Carries o o' → is_some o' ≡ true
Carries_some none o' h = h
Carries_some (some t) o' h = rw h refl

-- Data whose templates have names arrives so that it can be converted.
carried-IsNamed :
    (d d' : ServerData)
    → IsCarried d d'
    → All (λ (t : ProtoTemplate). is_some t.name ≡ true) d.templates
    → IsNamed d'
carried-IsNamed d d' c named = record {
  templates_named =
      All-Zipped _ (λ (t : ProtoTemplate). is_some t.name ≡ true) _ d.templates d'.templates
        (λ t t' h k. Carries_some t.name t'.name h.1) c.templates named;
  users_prefer =
      All-Zipped _ (λ (u : ProtoUser). Unit {0}) _ d.users d'.users
        (λ u u' h k. Carries_some u.prefered_session u'.prefered_session h) c.users
        (All-pure _ d.users (λ u. tt));
}

identified_at :
    (k : ℕ) (ss : List ProtoSession) (s : ProtoSession)
    → All (λ (s : ProtoSession). is_some s.id ≡ true) ss
    → get_elem? ss k ≡ some s
    → (id : Text) × (s.id ≡ some id)
identified_at k [] s h e = cc
identified_at zero (x ∷ ss) s h e =
    let same : x ≡ s = ground arith in
    elim (Option-cases s.id) [ inl n ↦ absurd (ground (arith, h.0)) | inr found ↦ found ]
identified_at (suc k) (x ∷ ss) s h e = identified_at k ss s h.1 e

activation_carried :
    (d d' : ServerData) (k : ℕ)
    → IsCarried d d'
    → All (λ (s : ProtoSession). is_some s.id ≡ true) d.sessions
    → Option.map (λ (s : ProtoSession). session_activation s.id) (get_elem? d'.sessions k)
      ≡ Option.map (λ (s : ProtoSession). session_activation s.id) (get_elem? d.sessions k)
activation_carried d d' k c known = elim (Option-cases (get_elem? d.sessions k)) [
  | inl n ↦ rw (n, Zipped-get_elem?-none _ k d.sessions d'.sessions c.sessions n)
  | inr (s, q) ↦
      let (s', q', carried) = Zipped-get_elem? _ k d.sessions d'.sessions s c.sessions q in
      let (id, i) = identified_at k d.sessions s known q in
      let arrived : s'.id ≡ some id = (rw i at carried) in rw (q, q', arrived, i)
]

-- The requests that name elements of data that arrived.
requests-IsCarried :
    (ctx ctx' : spawny.Client.Context) (d d' : ServerData) (usr pw : Option Text) (n k : ℕ)
    (t : ProtoTemplate) (id : Text)
    → IsCarried d d'
    → All (λ (s : ProtoSession). is_some s.id ≡ true) d.sessions
    → data_convert ctx d' ≡ some ctx'
    → get_elem? d.templates n ≡ some t
    → t.id ≡ some id
    → (sp_client_login ctx' usr pw (pos n) ≡ some (login_try usr pw (some id)))
      × (sp_client_session_activate ctx' (pos k)
          ≡ Option.map (λ (s : ProtoSession). session_activation s.id) (get_elem? d.sessions k))
requests-IsCarried ctx ctx' d d' usr pw n k t id c known e at i =
    let (t', at', (carried, _)) = Zipped-get_elem? _ n d.templates d'.templates t c.templates at in
    let arrived : t'.id ≡ some id = (rw i at carried) in
    (
      (requests-data_convert ctx ctx' d' usr pw n e).0 ∙ rw (at', arrived),
      (requests-data_convert ctx ctx' d' usr pw k e).1 ∙ activation_carried d d' k c known,
    )

-- What the daemon tells a greeter with a valid template registry, a user database as loaded from a
-- directory, and sessions that can be told, over a transmission as documented: the data is loaded
-- and converted, a login with a template's number asks for the id of that template, whose function
-- the registry then runs with its data, and an activation for the id of the session of that number
-- among those that are told.
pub load_data-requests :
    (log10 : ℕ → ℕ) (law : IsLog log10) (c : ℕ) (ts : List Template) (sys : System) (host : Host)
    (db : spawny.UserDb.Context) (fs : List (Text × Text)) (start : Passwd) (ratio : ℕ)
    (junk : ℕ → Option ProtoSession) (seat : Option Text) (transmit : ServerData → ServerData)
    (ctx : spawny.Client.Context) (usr pw : Option Text) (n k : ℕ) (t : Template)
    → Issued log10 law 0 c ts
    → c < 2 ^ 32
    → length ts < 2 ^ 31
    → sys.passwd ≡ host.passwd
    → db.user ≡ load_dir sys fs []
    → 1 ≤ ratio
    → start_user host ≡ some start
    → AreUsable host start (session_enumerate host.logind seat)
    → ((d : ServerData) → IsCarried d (transmit d))
    → get_elem? ts n ≡ some t
    → let r : Registry = record { array = some ts; counter = c } in
      (d : ServerData) × (load_data host ratio junk r db seat ≡ some d)
      × (ctx' : spawny.Client.Context) × (data_convert ctx (transmit d) ≡ some ctx')
      × (sp_client_login ctx' usr pw (pos n) ≡ some (login_try usr pw (some t.id)))
      × (template_run t.id r ≡ some (some (t.cb, t.data_ptr)))
      × (sp_client_session_activate ctx' (pos k)
          ≡ Option.map
              (λ (s : ProtoSession). session_activation s.id)
              (get_elem? (visible host start (session_enumerate host.logind seat)) k))
unfolding load_data
load_data-requests log10 law c ts sys host db fs start ratio junk seat transmit ctx usr pw n k t v
      fits few same loaded enough st usable carries at =
    let d : ServerData = record {
      templates = map spawny.Server.Data.Templates.shown ts;
      sessions = visible host start (session_enumerate host.logind seat);
      users = map (spawny.Server.Data.Users.shown host.passwd) db.user;
    } in
    let named =
      carried-IsNamed d (transmit d) (carries d)
        (All-map _ spawny.Server.Data.Templates.shown ts (All-pure _ ts (λ t. refl))) in
    let (ctx', e) = data_convert_total ctx (transmit d) named in
    let (asked, activated) =
      requests-IsCarried ctx ctx' d (transmit d) usr pw n k (spawny.Server.Data.Templates.shown t)
        t.id (carries d) (visible_identified host start (session_enumerate host.logind seat)) e
        (get_elem?-map spawny.Server.Data.Templates.shown n ts t at) refl in
    (
      d,
      rw (
        load_templates-shown log10 law c ts v fits few,
        load_users-load_dir sys host db fs same loaded,
        load_sessions-visible host start ratio junk seat enough st usable,
      ),
      ctx',
      e,
      asked,
      (get-details log10 law c n ts t v fits few at).4,
      activated,
    )
