-- ===== src/FallbackGreeter/Status.antt =====
-- sp-fallback-greeter/main.c and client.c: how the loop over the daemon's messages ends.
use spawny.Base.{◌≡◌, refl, List, [], ◌∷◌, ◌++◌, none, some, All}
use spawny.Client.{Context}
use spawny.Client.Total.{IsNamed, data_convert_total}
use spawny.Client.Read.{
  Incoming, failed, garbage, message, leave, unknown, data_update, login_feedback, sp_client_read,
  dispatch,
}
use spawny.FallbackGreeter.{got, main_loop}

-- A message that has its part, with names in its data, after which the loop goes on.
abbrev pub GoesOn : Incoming → Type 0
GoesOn failed = ⊥
GoesOn garbage = ⊥
GoesOn (message leave) = ⊥
GoesOn (message unknown) = Unit {0}
GoesOn (message (data_update none)) = ⊥
GoesOn (message (data_update (some d))) = IsNamed d
GoesOn (message (login_feedback none)) = ⊥
GoesOn (message (login_feedback (some f))) = Unit {0}

-- The end of the connection, bytes that are no message, or the message to leave.
pub data IsLast : Incoming → Type 0 where
  by_failed : IsLast failed
  by_garbage : IsLast garbage
  by_leave : IsLast (message leave)

-- Behind messages that can be handled, at the end of the connection, at bytes that are no message
-- or at the message to leave, the loop ends and the greeter exits with a failure.
pub main_loop_status :
    (ctx : Context) (is rest : List Incoming) (i : Incoming)
    → All GoesOn is
    → IsLast i
    → main_loop ctx (is ++ i ∷ rest) ≡ got 1
unfolding main_loop sp_client_read dispatch
main_loop_status ctx [] rest i ok by_failed = refl
main_loop_status ctx [] rest i ok by_garbage = refl
main_loop_status ctx [] rest i ok by_leave = refl
main_loop_status ctx (failed ∷ is) rest i ok last = elim ok.0 [ ]
main_loop_status ctx (garbage ∷ is) rest i ok last = elim ok.0 [ ]
main_loop_status ctx (message leave ∷ is) rest i ok last = elim ok.0 [ ]
main_loop_status ctx (message unknown ∷ is) rest i ok last =
    main_loop_status ctx is rest i ok.1 last
main_loop_status ctx (message (data_update none) ∷ is) rest i ok last = elim ok.0 [ ]
main_loop_status ctx (message (data_update (some d)) ∷ is) rest i ok last =
    let (ctx', e) = data_convert_total ctx d ok.0 in
    rw (main_loop, sp_client_read, dispatch, e) (main_loop_status ctx' is rest i ok.1 last)
main_loop_status ctx (message (login_feedback none) ∷ is) rest i ok last = elim ok.0 [ ]
main_loop_status ctx (message (login_feedback (some f)) ∷ is) rest i ok last =
    main_loop_status ctx is rest i ok.1 last
