-- ===== src/Greeting/Startup.antt =====
-- main.c, desktop_common.c, server.c and client.c together: from the .desktop files that the daemon
-- reads when it starts to the program that a greeter's choice runs.
use mathlib.Core.Option
use spawny.Base.{
  ℕ, zero, suc, ◌^◌, ◌≤◌, ◌<◌, ◌≡◌, refl, ap, ◌∙◌, List, [], ◌∷◌, map, Option, some, Text, arith,
  true, leb, [], ◌∷◌, get_elem?, length,
}
use spawny.Templates.{Template, Registry, init, template_run}
use spawny.Templates.Ids.{IsLog}
use spawny.UserDb.Files.{Passwd, System, load_dir}
use spawny.Sessions.{session_enumerate}
use spawny.Client.{
  ProtoSession, ServerData, data_convert, pos, login_try, session_activation, sp_client_login,
  sp_client_session_activate,
}
use spawny.Server.Data.{Host, start_user, load_data}
use spawny.Server.Data.Sessions.{visible, AreUsable}
use spawny.Desktop.{Machine, templates_init}
use spawny.Desktop.Listed.{Listing, listing, declared_all, templates_init-declared}
use spawny.Client.Read.{
  Incoming, ServerMessage, data_update, data_cb, success, max_msg_size, receive, sp_client_read,
}
use spawny.Greeting.{IsCarried, load_data-requests}

mapped-get_elem? {ℓ κ} :
    {A : Type ℓ} {B : Type κ} (f : A → B) (n : ℕ) (xs : List A) (y : B)
    → get_elem? (map f xs) n ≡ some y
    → (x : A) × (get_elem? xs n ≡ some x) × (f x ≡ y)
mapped-get_elem? f n [] y e = cc
mapped-get_elem? f zero (x ∷ xs) y e = (x, refl, ground arith)
mapped-get_elem? f (suc n) (x ∷ xs) y e = mapped-get_elem? f n xs y e

listing_count : (ts : List Template) → length ts ≡ length (map listing ts)
listing_count [] = refl
listing_count (t ∷ ts) = ap suc (listing_count ts)

-- From the start of the daemon to a greeter's choice. With a logarithm as documented, fewer than
-- 2 ^ 31 declared templates, a user database as loaded from a directory under the accounts, sessions
-- that logind describes in full and whose users have accounts, an account for SP_USER, messages
-- that carry their strings, and data that fits into the MAX_MSG_SIZE bytes of one read: the data is
-- loaded, received and converted, and the callback for it is made; a login with the number of a
-- declaration (the terminal first, then the .desktop files in the order of the directories) asks for
-- an id under which the registry runs what the declaration says; an activation asks for the id of
-- the session of that number among those that are told, and of none behind the last.
pub templates_init-requests :
    (m : Machine) (law : IsLog m.log10) (sys : System) (host : Host) (db : spawny.UserDb.Context)
    (fs : List (Text × Text)) (start : Passwd) (ratio : ℕ) (junk : ℕ → Option ProtoSession)
    (seat : Option Text) (transmit : ServerData → ServerData) (cut : ℕ → ServerMessage → Incoming)
    (packed_size : ServerData → ℕ) (ctx : spawny.Client.Context) (usr pw : Option Text) (n k : ℕ)
    (l : Listing)
    → length (declared_all m) < 2 ^ 31
    → sys.passwd ≡ host.passwd
    → db.user ≡ load_dir sys fs []
    → 1 ≤ ratio
    → start_user host ≡ some start
    → AreUsable host start (session_enumerate host.logind seat)
    → ((d : ServerData) → IsCarried d (transmit d))
    → ((r : Registry) (d : ServerData)
        → templates_init m init ≡ some r
        → load_data host ratio junk r db seat ≡ some d
        → packed_size d ≤ max_msg_size)
    → get_elem? (declared_all m) n ≡ some l
    → (r : Registry) × (templates_init m init ≡ some r)
      × (d : ServerData) × (load_data host ratio junk r db seat ≡ some d)
      × (ctx' : spawny.Client.Context) × (sp_client_read ctx
            (some (record { data_cb = true; feedback_cb = true }))
            (receive cut (packed_size d) (data_update (some (transmit d))))
          ≡ some (ctx', data_cb ∷ [], success))
      × (id : Text) × (sp_client_login ctx' usr pw (pos n) ≡ some (login_try usr pw (some id)))
      × (template_run id r ≡ some (some (l.cb, l.data_ptr)))
      × (sp_client_session_activate ctx' (pos k)
          ≡ Option.map
              (λ (s : ProtoSession). session_activation s.id)
              (get_elem? (visible host start (session_enumerate host.logind seat)) k))
unfolding sp_client_read receive spawny.Client.Read.dispatch spawny.Client.Read.interface_check
templates_init-requests m law sys host db fs start ratio junk seat transmit cut packed_size ctx usr
      pw n k l fits same loaded enough st usable carries small at =
    let (ts, e, ls, v) = templates_init-declared m law (omega (arith, fits)) in
    let count : length ts ≡ length (declared_all m) = listing_count ts ∙ ap length ls in
    let (t, place, same_l) = mapped-get_elem? listing n ts l (rw ls at) in
    let (d, load, ctx', conv, asked, runs, activated) =
      load_data-requests m.log10 law (length ts) ts sys host db fs start ratio junk seat transmit
        ctx usr pw n k t v (omega (arith, count)) (omega (arith, count)) same loaded enough st
        usable carries place in
    let whole : leb (packed_size d) max_msg_size ≡ true =
      let bound = small _ d e load in ground (arith, bound) in
    (
      _,
      e,
      d,
      load,
      ctx',
      rw (whole, sp_client_read, receive) (rw conv),
      t.id,
      asked,
      rw (runs, ← same_l),
      activated,
    )
