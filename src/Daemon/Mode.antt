-- ===== src/Daemon/Mode.antt =====
-- main.c and client.c: the mode in which the daemon and the greeters that it restarts run.
use spawny.Base.{
  ◌≡◌, refl, true, false, ◌||◌, List, [], ◌∷◌, some, Text, codes, str_eq, arith, Bool-cases, inl,
  inr,
}
use spawny.Client.Read
use spawny.Daemon.{Config, parse_loop, parse_args}

parse_loop-debug :
    (args : List Text) (a b : Config)
    → parse_loop args a ≡ some b
    → spawny.Client.Read.parse_args args a.debug ≡ b.debug
unfolding parse_loop spawny.Client.Read.parse_args
parse_loop-debug [] a b e = let same : a ≡ b = ground arith in rw (← same) refl
parse_loop-debug (arg ∷ args) a b e =
    elim (Bool-cases (str_eq arg (codes "--debug") || str_eq arg (codes "-d"))) [
      | inl q ↦ rw q (parse_loop-debug args (record a { debug = true }) b (ground (arith, q)))
      | inr q ↦ elim (Bool-cases (str_eq arg (codes "--no-greeter-restart"))) [
        | inl r ↦ rw q (
            parse_loop-debug args (record a { no_greeter_restart = true }) b (ground (arith, q, r)))
        | inr r ↦ absurd (ground (arith, q, r))
      ]
    ]

-- For every list of arguments that the daemon accepts: the client library reads debugging mode from
-- it exactly if the daemon does.
pub parse_args-debug :
    (args : List Text) (config : Config)
    → parse_args args ≡ some config
    → spawny.Client.Read.parse_args args false ≡ config.debug
unfolding parse_args
parse_args-debug args config e =
    parse_loop-debug args (record { debug = false; no_greeter_restart = false }) config e
