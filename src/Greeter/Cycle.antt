-- ===== src/Greeter/Cycle.antt =====
-- greeter.c: what a login does to the greeter of its seat.
use spawny.Base.{
  ℕ, suc, ◌+◌, ◌≡◌, refl, ap, ◌∙◌, true, List, [], ◌∷◌, ◌++◌, Option, none, some, Text, arith,
  str_eq, str_eq_refl, Bool-cases, get_elem?, inl, inr, if◌then◌else◌,
}
use spawny.Greeter.{
  live, SeatGreeter, Effects, Spawned, child, returns, activate, greeter_done, greeter_new,
  greeter_search, greeter_del, greeter_write, greeter_activate, greeter_lockout, greeter_died,
  session_of, seat_greeter_pid_get,
}
use spawny.Greeter.Seats.{Distinct, search_seat, search-del, get_elem?-greeter_write}

del-write :
    (new : SeatGreeter) (gs : List SeatGreeter)
    → greeter_del new.seat (greeter_write new gs) ≡ greeter_del new.seat gs
unfolding greeter_del greeter_write
del-write new [] = refl
del-write new (h ∷ gs) = elim (Bool-cases (str_eq h.seat new.seat)) [
  | inl q ↦ rw (q, str_eq_refl new.seat)
  | inr q ↦ rw (q, q, del-write new gs)
]

module _ (session_get : ℕ → Option Text) (spawns : ℕ → Spawned) where
  -- A login on a seat that has a greeter whose pid can be read, in a list with one greeter to a seat,
  -- at the element that its handler was given, where the next process can be started. The greeter is
  -- locked out; when it dies it is taken off and not started again, and the greeters of the other
  -- seats stay as they were; the next activation of the seat starts a new greeter, with no restart
  -- counted.
  pub lockout-died-activate :
      (fuel : ℕ) (seat : Text) (gs : List SeatGreeter) (i : ℕ) (g : SeatGreeter) (fx : Effects)
      (was : Option ℕ) (pid : ℕ)
      → Distinct gs
      → greeter_search seat gs ≡ some g
      → get_elem? gs i ≡ some g
      → seat_greeter_pid_get g ≡ returns was
      → spawns fx.spawned ≡ child pid
      → (locked : List SeatGreeter) × (greeter_lockout (some seat) gs ≡ returns locked)
        × (left : List SeatGreeter) × (greeter_died session_get spawns fuel (some i) locked fx
            ≡ returns (left, fx))
        × ((s : Text)
            → greeter_search s left ≡ (if str_eq seat s then none else greeter_search s gs))
        × (greeter_activate session_get spawns (suc fuel) seat left fx
            ≡ returns (
              left ++ record (greeter_new seat) { run_try = live pid } ∷ [],
              record fx { spawned = fx.spawned + 1 },
            ))
  unfolding greeter_died greeter_lockout greeter_done
  lockout-died-activate fuel seat gs i g fx was pid d found place reads e =
      let locked : SeatGreeter = record g { end = true } in
      let at : g.seat ≡ seat = search_seat seat gs g found in
      let left = greeter_del seat gs in
      let gone : greeter_search seat left ≡ none =
        search-del seat seat gs d ∙ rw (str_eq_refl seat) in
      let finds : get_elem? (greeter_write locked gs) i ≡ some locked =
        get_elem?-greeter_write locked gs i g d place refl in
      let del : greeter_del g.seat (greeter_write locked gs) ≡ left =
        del-write locked gs ∙ ap (λ s. greeter_del s gs) at in
      let still : seat_greeter_pid_get locked ≡ returns was =
        unfold seat_greeter_pid_get in reads in
      (
        greeter_write locked gs,
        ground (arith, found),
        left,
        ground (arith, finds, still, del),
        λ s. search-del seat s gs d,
        unfold greeter_activate activate session_of greeter_new in ground (arith, gone, e),
      )
