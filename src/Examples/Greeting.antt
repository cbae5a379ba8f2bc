-- ===== src/Examples/Greeting.antt =====
-- The start of the daemon and what it tells a greeter, at concrete inputs.
use mathlib.Core.Option
use spawny.Base.{
  ◌*◌, ◌+◌, Zipped-map, ℕ, Bool, leb, ◌≡◌, refl, true, List, [], ◌∷◌, map, Option, none, some, Text,
  codes, str_eq, get_elem?, length, arith, if◌then◌else◌,
}
use spawny.Templates.{Template, Registry, init, template_run}
use spawny.Templates.Find.{Issued}
use spawny.UserDb.{Pair}
use spawny.UserDb.Files.{Passwd, Entry, System, load_dir}
use spawny.Sessions.{Logind, value, enodata, session_enumerate}
use spawny.Client.{
  ProtoTemplate, ProtoSession, ProtoUser, ServerData, data_convert, pos, login_try,
  session_activation, sp_client_login, sp_client_session_activate,
}
use spawny.Server.Data.{Host, load_data, load_sessions}
use spawny.Server.Data.Sessions.{visible, load_sessions-visible}
use spawny.Desktop.{Machine, Dirent, Ini, parsed, has_ext, templates_init, handle_all, no_session}
use spawny.Desktop.Keys.{handle_all-last_value}
use spawny.Desktop.Listed.{Listing, listing, declared_all, templates_init-declared}
use spawny.Client.Read.{
  Incoming, garbage, ServerMessage, data_update, data_cb, success, max_msg_size, receive,
  sp_client_read,
}
use spawny.Greeting.{Carries, IsCarried}
use spawny.Greeting.Startup.{templates_init-requests}
use spawny.Examples.Log.{log10, log10-IsLog}
use spawny.Examples.Users.{system, account, read_ini, ann}
use spawny.Examples.Clients.{full}

abbrev in_entry : Text → Text → Entry
in_entry n v = record { in_section = codes "Desktop Entry"; name = n; value = v }

abbrev xfce : Ini
xfce = record {
  entries =
      in_entry (codes "Name") (codes "Xfce") ∷ (in_entry (codes "Exec") (codes "startxfce4") ∷ []);
  result = parsed;
}

abbrev xfce_file : Dirent
xfce_file = record { before = 0 ∷ []; d_name = codes "xfce.desktop" }

abbrev pub machine : Machine
machine = record {
  log10 = log10;
  opendir =
      λ path. if str_eq path (codes "/usr/share/xsessions/") then some (xfce_file ∷ []) else none;
  ini_parse = λ path. xfce;
  strdup = λ text. 9000;
  tty_fire_up = 100;
  x11_fire_up = 200;
  wl_fire_up = 300;
}

abbrev greeter_account : Passwd
greeter_account = record { pw_name = codes "spawny"; pw_uid = 990; pw_gid = 990 }

abbrev daemon_system : System
daemon_system = record system { passwd = account ∷ (greeter_account ∷ []) }

abbrev logind : Logind
logind = record {
  sd_pid_get_session = λ pid. none;
  sd_session_get_seat = λ session. some (codes "seat0");
  sd_seat_get_sessions = λ seat. some (codes "c1" ∷ (codes "c2" ∷ []));
  sd_session_get_vt = λ handle. value 7;
  sd_session_get_uid = λ handle. elim handle [
    | none ↦ value 0
    | some h ↦ if str_eq h (codes "c1") then value 990 else value 1000
  ];
  sd_session_get_desktop = λ handle. enodata;
  sd_session_get_type = λ handle. value (some (codes "x11"));
}

abbrev host : Host
host = record {
  passwd = account ∷ (greeter_account ∷ []);
  logind = logind;
  sp_user = codes "spawny";
}

abbrev junk : ℕ → Option ProtoSession
junk n = none

abbrev seat : Option Text
seat = some (codes "seat0")

abbrev told : List ProtoSession
told =
    record {
      id = some (codes "c2");
      user = some (codes "ann");
      name = some (codes "x11");
      icon = none;
    }
    ∷ []

sessions_example :
    load_sessions host 4 junk seat
    ≡ some (visible host greeter_account (session_enumerate logind seat))
unfolding session_enumerate spawny.Server.Data.getpwuid spawny.Sessions.session_details
    spawny.Sessions.max_name spawny.UserDb.Files.getpwnam str_eq
sessions_example =
    load_sessions-visible host greeter_account 4 junk seat (omega arith) refl (refl, (refl, tt))

declared_example :
    (ts : List Template) × (templates_init machine init
      ≡ some (record { array = some ts; counter = length ts }))
    × (map listing ts ≡ declared_all machine)
    × Issued log10 log10-IsLog 0 (length ts) ts
unfolding declared_all spawny.Desktop.Listed.declared_by spawny.Desktop.Listed.declared_in has_ext
    spawny.Desktop.parse_ini_verbose spawny.Desktop.Keys.last_value str_eq
declared_example = templates_init-declared machine log10-IsLog (omega arith)

abbrev prefered : Pair
prefered = record { value = codes "Xfce"; name = codes "prefered-session" }

abbrev user_files : List (Text × Text)
user_files = (codes "ann.ini", codes "[identify]\nname=ann\n[info]\nprefered-session=Xfce\n") ∷ []

abbrev db : spawny.UserDb.Context
db = record { started_uid = 0; user = ann (prefered ∷ []) ∷ []; loaded_from_fs = true; ref = 1 }

-- A transmission that sends an empty string for NULL.
abbrev filled : Option Text → Option Text
filled none = some []
filled (some text) = some text

abbrev transmit : ServerData → ServerData
transmit d = record {
  templates =
      map
        (λ (t : ProtoTemplate). record {
          id = filled t.id;
          name = filled t.name;
          icon = filled t.icon;
        })
        d.templates;
  sessions =
      map
        (λ (s : ProtoSession). record {
          id = filled s.id;
          user = filled s.user;
          name = filled s.name;
          icon = filled s.icon;
        })
        d.sessions;
  users =
      map
        (λ (u : ProtoUser). record {
          uid = u.uid;
          name = filled u.name;
          icon = filled u.icon;
          prefered_session = filled u.prefered_session;
        })
        d.users;
}

filled-Carries : (o : Option Text) → Carries o (filled o)
filled-Carries none = refl
filled-Carries (some text) = refl

transmit-IsCarried : (d : ServerData) → IsCarried d (transmit d)
transmit-IsCarried d = record {
  templates =
      Zipped-map _ _ d.templates
        (λ (t : ProtoTemplate). (filled-Carries t.id, filled-Carries t.name));
  sessions = Zipped-map _ _ d.sessions (λ (s : ProtoSession). filled-Carries s.id);
  users = Zipped-map _ _ d.users (λ (u : ProtoUser). filled-Carries u.prefered_session);
}

abbrev xfce_listing : Listing
xfce_listing = record {
  name = codes "Xfce";
  icon = none;
  type = codes "x11";
  cb = 200;
  data_ptr = 9000;
}

-- A hundred bytes for each element.
abbrev packed_size : ServerData → ℕ
packed_size d = 100 * (length d.templates + length d.sessions + length d.users)

-- What holds of all the results of a computation that was run holds of each.
results-Each :
    {A B : Type 0} (o : Option A) (f : A → Option B) (p : B → Bool)
    → elim o [ none ↦ true | some a ↦ elim (f a) [ none ↦ true | some b ↦ p b ] ] ≡ true
    → (a : A) (b : B) → o ≡ some a
    → f a ≡ some b
    → p b ≡ true
results-Each none f p h a b e e' = cc
results-Each (some x) f p h a b e e' = let same : x ≡ a = cc in rw (same, e') at h

abbrev cut : ℕ → ServerMessage → Incoming
cut n m = garbage

all_fit :
    elim (templates_init machine init) [
      | none ↦ true
      | some r ↦ elim (load_data host 4 junk r db seat) [
        | none ↦ true
        | some d ↦ leb (packed_size d) max_msg_size
      ]
    ]
    ≡ true
unfolding has_ext str_eq templates_init load_data session_enumerate spawny.Desktop.parse_ini_verbose
    spawny.Server.Data.getpwuid spawny.Sessions.session_details spawny.Sessions.max_name
    spawny.UserDb.Files.getpwnam spawny.UserDb.user_field_get spawny.UserDb.user_find
    spawny.Templates.template_register spawny.Templates.template_get
    spawny.Templates.template_details_get spawny.UserDb.Api.user_db_users_iterate
    spawny.UserDb.Api.user_db_field_get
all_fit = refl

requests_init_example :
    (r : Registry) × (templates_init machine init ≡ some r)
    × (d : ServerData) × (load_data host 4 junk r db seat ≡ some d)
    × (ctx' : spawny.Client.Context) × (sp_client_read full
          (some (record { data_cb = true; feedback_cb = true }))
          (receive cut (packed_size d) (data_update (some (transmit d))))
        ≡ some (ctx', data_cb ∷ [], success))
    × (id : Text) × (sp_client_login ctx' (some (codes "ann")) none (pos 1)
        ≡ some (login_try (some (codes "ann")) none (some id)))
    × (template_run id r ≡ some (some (200, 9000)))
    × (sp_client_session_activate ctx' (pos 0)
        ≡ Option.map
            (λ (s : ProtoSession). session_activation s.id)
            (get_elem? (visible host greeter_account (session_enumerate logind seat)) 0))
unfolding declared_all spawny.Desktop.Listed.declared_by spawny.Desktop.Listed.declared_in has_ext
    spawny.Desktop.parse_ini_verbose spawny.Desktop.Keys.last_value str_eq session_enumerate
    spawny.Server.Data.getpwuid spawny.Sessions.session_details spawny.Sessions.max_name
    spawny.UserDb.Files.getpwnam load_dir read_ini spawny.UserDb.user_field_get
    spawny.UserDb.user_find
requests_init_example =
    templates_init-requests machine log10-IsLog daemon_system host db user_files greeter_account 4
      junk seat transmit cut packed_size full (some (codes "ann")) none 1 0 xfce_listing
      (omega arith) refl refl (omega arith) refl (refl, (refl, tt)) transmit-IsCarried
      (λ r d e e'. ground (
        arith,
        results-Each (templates_init machine init) (λ r. load_data host 4 junk r db seat)
            (λ d. leb (packed_size d) max_msg_size) all_fit r d e e',
      ))
      refl
