-- ===== src/Examples/Clients.antt =====
-- client.c at concrete inputs.
use spawny.Base.{ℕ, ◌≡◌, refl, List, [], ◌∷◌, Option, none, some, Text, codes}
use spawny.Client.{
  ProtoTemplate, ProtoSession, ProtoUser, ServerData, Context, Template, Session, User,
  PrivateSession, PrivateTemplate, data_convert, pos, negsuc, login_try, session_activation,
  sp_client_login, sp_client_session_activate, zero_template,
}
use spawny.Client.Data.{requests-data_convert}

abbrev pub server_data : ServerData
server_data = record {
  templates =
      record { id = some (codes "t0"); name = some (codes "Xfce"); icon = none }
      ∷ (record { id = some (codes "t3"); name = some (codes "i3"); icon = none } ∷ []);
  sessions =
      record { id = some (codes "c2"); user = some (codes "ann"); name = none; icon = none } ∷ [];
  users =
      record {
        uid = 1000;
        name = some (codes "ann");
        icon = none;
        prefered_session = some (codes "i3");
      }
      ∷ [];
}

abbrev empty : Context
empty = record {
  sessions = [];
  private_sessions = [];
  templates = [];
  private_templates = [];
  users = [];
}

abbrev pub full : Context
full = record {
  sessions = [];
  private_sessions = [];
  templates = record { id = 4; icon = none; name = some (codes "old") } ∷ [];
  private_templates = record { template_id = some (codes "t9"); id = 4 } ∷ [];
  users = record { id = 1; icon = none; name = some (codes "bob"); prefered_session = 7 } ∷ [];
}

abbrev pub converted_data : Context
converted_data = record {
  sessions = record { id = 0; icon = none; user = some (codes "ann"); name = none } ∷ [];
  private_sessions = record { session_id = some (codes "c2"); id = 0 } ∷ [];
  templates =
      record { id = 0; icon = none; name = some (codes "Xfce") }
      ∷ (record { id = 1; icon = none; name = some (codes "i3") } ∷ []);
  private_templates =
      record { template_id = some (codes "t0"); id = 0 }
      ∷ (record { template_id = some (codes "t3"); id = 1 } ∷ []);
  users = record { id = 0; icon = none; name = some (codes "ann"); prefered_session = 1 } ∷ [];
}

requests_example :
    (sp_client_login converted_data (some (codes "ann")) none (pos 1)
      ≡ some (login_try (some (codes "ann")) none (some (codes "t3"))))
    × (sp_client_session_activate converted_data (pos 1) ≡ none)
    × (sp_client_login converted_data (some (codes "ann")) none (negsuc 1) ≡ none)
    × (sp_client_session_activate converted_data (negsuc 1) ≡ none)
unfolding spawny.Client.fill_array spawny.Client.find_simular_session spawny.Base.str_eq
requests_example =
    requests-data_convert full converted_data server_data (some (codes "ann")) none 1
      (unfold data_convert in refl)
