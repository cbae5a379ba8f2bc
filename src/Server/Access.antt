-- ===== src/Server/Access.antt =====
-- server.c: who may ask for what, and the life of a client.
use spawny.Base.{◌≡◌, false, [], ◌∷◌, none, some, arith}
use spawny.Server.{
  Client, Message, hello, greeter_start, unknown, session_activation, login_try, received, System,
  unregister_fd, close_fd, free_client, client_free, client_is_greeter, safe_call, dispatch,
  client_data,
}

-- Only a client that is a greeter may send such a message.
abbrev pub IsGuarded : Message → Type 0
IsGuarded greeter_start = ⊥
IsGuarded unknown = ⊥
IsGuarded hello = Unit {0}
IsGuarded (session_activation id) = Unit {0}
IsGuarded (login_try l) = Unit {0}

-- A client that is no greeter and asks for the data, for a session or for a login gets nothing:
-- whatever the message holds, its descriptor is unregistered and closed and the client freed, and
-- nothing else is done.
pub client_data_refused :
    (sys : System) (c : Client) (m : Message)
    → client_is_greeter sys ≡ false
    → IsGuarded m
    → client_data sys c (received m)
      ≡ some (unregister_fd c.fd ∷ (close_fd c.fd ∷ (free_client ∷ [])), none)
unfolding client_data dispatch safe_call client_free client_is_greeter
client_data_refused sys c hello r g = ground arith
client_data_refused sys c (session_activation id) r g = ground arith
client_data_refused sys c (login_try l) r g = ground arith
client_data_refused sys c greeter_start r g = elim g [ ]
client_data_refused sys c unknown r g = elim g [ ]
