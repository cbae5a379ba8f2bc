-- ===== src/Examples/Console.antt =====
-- The console greeter at concrete inputs.
use spawny.Base.{
  ℕ, zero, suc, ◌≡◌, refl, Bool, true, false, List, [], ◌∷◌, ◌++◌, Option, none, some, Text, codes,
  get_elem?, if◌then◌else◌, ltb, ◌==◌,
}
use spawny.Client.{Context, Template, User, ℤ, pos, login_try}
use spawny.FallbackGreeter.{got, newline, announced, ask_template, main_loop}
use spawny.FallbackGreeter.Choice.{ask_template-listed}
use spawny.Examples.Clients.{server_data, converted_data, full}

-- `atoi` of numbers of one digit.
abbrev atoi : Text → ℤ
atoi [] = pos 0
atoi (c ∷ cs) = if c == 49 then pos 1 else if c == 50 then pos 2 else pos 0

abbrev ann : User
ann = record { id = 0; icon = none; name = some (codes "ann"); prefered_session = 1 }

abbrev default_template : Template
default_template = record { id = 1; icon = none; name = some (codes "i3") }

listed_example :
    ask_template atoi converted_data ann default_template
      (codes "ann")
      none
      ((codes "l\n" ∷ []) ++ codes "2\n" ∷ [])
    ≡ got (login_try (some (codes "ann")) none (some (codes "t3")))
unfolding spawny.Client.fill_array spawny.Client.find_simular_session spawny.Base.str_eq
    spawny.FallbackGreeter.choice
listed_example =
    ask_template-listed atoi full converted_data server_data ann default_template (codes "ann") none
      (codes "l\n" ∷ []) [] (codes "2\n") 1
      (record { id = some (codes "t3"); name = some (codes "i3"); icon = none })
      (unfold spawny.Client.data_convert in refl) (refl, tt) refl refl refl refl
