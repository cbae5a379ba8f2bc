-- ===== src/FallbackGreeter.antt =====
-- sp-fallback-greeter/main.c: the dialogue of the console greeter.
-- What is typed comes as lists: the words that `scanf` reads, the lines of `fgets` and the bytes of
-- `getchar`. `atoi` is a parameter. A line is not empty.
pub mod Choice
pub mod Status
use mathlib.Core.Option
use spawny.Base.{
  ℕ, zero, suc, ◌+◌, ◌-◌, Bool, true, false, not, ◌&&◌, List, [], ◌∷◌, Option, none, some, Text,
  codes, str_eq, length, take, get_elem?, ltb, ◌==◌, if◌then◌else◌, ◌>>=◌,
}
use spawny.Client.{
  Context, Template, Session, User, ℤ, pos, negsuc, Request, sp_client_login,
  sp_client_session_activate,
}
use spawny.Client.Read.{
  Incoming, Interface, ReadResult, success, failure, exit, sp_client_read, sp_client_data_get,
}

-- A dialogue is undefined, or waits for more input, or gives its result.
pub data Run {ℓ} (A : Type ℓ) : Type ℓ where
  undefined waiting : Run A
  got : A → Run A

-- The arrays that `_data_cb` copies, and `prompted`.
pub record State : Type 0 where
  pub sessions : List Session
  pub templates : List Template
  pub users : List User
  pub prompted : Bool

abbrev pub newline : ℕ
newline = 10

-- The user of that name, `some none` for nobody; `strcmp` on a name that is NULL is undefined.
unfoldable pub find_user : List User → Text → Option (Option User)
find_user [] username = some none
find_user (usr ∷ us) username =
    let rest = find_user us username in
    usr.name >>= λ name. (if str_eq name username then some (some usr) else rest)

-- The first loop of `login`.
unfoldable pub ask_user : List User → List Text → Run (User × Text)
unfolding find_user
ask_user users [] = waiting
ask_user users (username ∷ typed) =
    let again = ask_user users typed in
    elim (find_user users username) [
      | none ↦ undefined
      | some none ↦ again
      | some (some user) ↦ got (user, username)
    ]

abbrev pub pred : ℤ → ℤ
pred (pos zero) = negsuc 0
pred (pos (suc n)) = pos n
pred (negsuc n) = negsuc (n + 1)

abbrev pub is_zero : ℤ → Bool
is_zero (pos zero) = true
is_zero (pos (suc n)) = false
is_zero (negsuc n) = false

abbrev pub first_is : ℕ → Text → Bool
first_is c [] = false
first_is c (d ∷ ds) = d == c

module _ (atoi : Text → ℤ) where
  -- The default that a prompt announces, and the number that a line gives: `none` asks again.
  abbrev pub announced : User → Template → Option (Option Text)
  announced user def = if not (user.prefered_session == 0) then some def.name else none

  unfoldable pub choice : User → Template → Text → Option ℤ
  choice user def template =
      if first_is b'l' template
      then none
      else if ltb 1 user.prefered_session && first_is newline template
      then some (pos (def.id + 1))
      else if not (is_zero (atoi template))
      then some (atoi template)
      else none

  -- The second loop of `login`.
  unfoldable pub ask_template :
      Context → User → Template → Text → Option Text → List Text → Run Request
  unfolding choice
  ask_template ctx user def username password [] = waiting
  ask_template ctx user def username password (template ∷ typed) =
      let again = ask_template ctx user def username password typed in
      elim (choice user def template) [
        | none ↦ again
        | some temp ↦ elim (sp_client_login ctx (some username) password (pred temp)) [
          | none ↦ again
          | some request ↦ got request
        ]
      ]

  unfoldable pub login : Context → State → List Text → Option Text → List Text → Run Request
  unfolding ask_user ask_template
  login ctx s words password lines = elim (ask_user s.users words) [
    | undefined ↦ undefined
    | waiting ↦ waiting
    | got (user, username) ↦ elim (get_elem? s.templates user.prefered_session) [
      | none ↦ undefined
      | some def ↦ ask_template ctx user def username password lines
    ]
  ]

  -- The loop of `listsessions`; the last byte of the line is cut off.
  unfoldable pub listsessions : Context → List Text → Run Request
  listsessions ctx [] = waiting
  listsessions ctx (session ∷ typed) =
      let again = listsessions ctx typed in
      let id = atoi (take (length session - 1) session) in
      elim (sp_client_session_activate ctx (pred id)) [ none ↦ again | some request ↦ got request ]

pub data Dialogue : Type 0 where
  login_dialogue sessions_dialogue : Dialogue

-- The choice of `prompt_run`, `none` at the end of the input, which makes it fail. A byte that is no
-- newline takes the next one with it.
unfoldable pub prompt_run : List ℕ → Option Dialogue
prompt_run [] = none
prompt_run (c ∷ []) =
    if c == newline
    then some login_dialogue
    else if c == b'l'
    then some login_dialogue
    else if c == b's'
    then some sessions_dialogue
    else none
prompt_run (c ∷ d ∷ cs) =
    let again = prompt_run cs in
    if c == newline
    then some login_dialogue
    else if c == b'l'
    then some login_dialogue
    else if c == b's'
    then some sessions_dialogue
    else again

-- `_data_cb`: the new arrays, and whether it prompts.
unfoldable pub data_cb : Context → State → State × Bool
data_cb ctx s =
    let (sessions, templates, users) = sp_client_data_get ctx in
    (
      record { sessions = sessions; templates = templates; users = users; prompted = true },
      not s.prompted,
    )

abbrev both_callbacks : Option Interface
both_callbacks = some (record { data_cb = true; feedback_cb = true })

-- The loop of `main` over what the daemon sends, and its exit status: 0 for success.
unfoldable pub main_loop : Context → List Incoming → Run ℕ
main_loop ctx [] = waiting
main_loop ctx (i ∷ is) = elim (sp_client_read ctx both_callbacks i) [
  | none ↦ undefined
  | some (ctx', calls, success) ↦ main_loop ctx' is
  | some (ctx', calls, failure) ↦ got 1
  | some (ctx', calls, exit) ↦ got 1
]
