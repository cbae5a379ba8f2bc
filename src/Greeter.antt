-- ===== src/Greeter.antt =====
-- sp-daemon/greeter.c: the greeter of each seat, its restarts and the fallback.
-- What the system answers is a parameter: `session_get`, `getsid`, and for the n-th call of
-- `spawnservice_spawn` how it ends before it returns.
pub mod Restarts
pub mod Seats
pub mod Cycle
use spawny.Base.{
  ℕ, zero, suc, ◌+◌, ◌-◌, Bool, true, false, not, ◌&&◌, ◌||◌, List, [], ◌∷◌, ◌++◌, Option, none,
  some, Text, codes, str_eq, ltb, leb, if◌then◌else◌, ◌==◌, get_elem?, ◌>>=◌,
}

abbrev pub fallback_run_generation : ℕ
fallback_run_generation = 5

-- `run.try`: NULL, a try with its pid, or the address of a try that was freed.
pub data Try : Type 0 where
  null : Try
  live : ℕ → Try
  freed : Try

pub record SeatGreeter : Type 0 where
  pub seat : Text
  pub run_gen : ℕ
  pub run_try : Try
  -- `none` is the pid -1
  pub run_pid : Option ℕ
  pub end : Bool

pub record Effects : Type 0 where
  pub activated : List Text
  pub spawned : ℕ
  pub listened : List ℕ

-- How `spawnservice_spawn` ends: no pipe, NULL; a failure that calls `_greeter_start_done` before it
-- returns an address that is freed; or a child.
pub data Spawned : Type 0 where
  no_pipe : Spawned
  failure : Spawned
  child : ℕ → Spawned

pub data Run {ℓ} (A : Type ℓ) : Type ℓ where
  returns : A → Run A
  faults : Run A
  out_of_fuel : Run A

unfoldable pub greeter_new : Text → SeatGreeter
greeter_new seat = record { seat = seat; run_gen = 0; run_try = null; run_pid = none; end = false }

unfoldable pub run_reset : SeatGreeter → SeatGreeter
run_reset g = record g { run_try = null; run_pid = none }

unfoldable pub greeter_search : Text → List SeatGreeter → Option SeatGreeter
greeter_search seat [] = none
greeter_search seat (g ∷ gs) = if str_eq g.seat seat then some g else greeter_search seat gs

unfoldable pub greeter_del : Text → List SeatGreeter → List SeatGreeter
greeter_del seat [] = []
greeter_del seat (g ∷ gs) = if str_eq g.seat seat then gs else g ∷ greeter_del seat gs

-- A write through the pointer that `_greeter_search` returned.
unfoldable pub greeter_write : SeatGreeter → List SeatGreeter → List SeatGreeter
greeter_write new [] = []
greeter_write new (g ∷ gs) = if str_eq g.seat new.seat then new ∷ gs else g ∷ greeter_write new gs

-- `seat_greeter_pid_get`; `none` in the answer is -1, and a freed try is read.
unfoldable pub seat_greeter_pid_get : SeatGreeter → Run (Option ℕ)
seat_greeter_pid_get g = elim g.run_try [
  | null ↦ returns g.run_pid
  | live pid ↦ returns (some pid)
  | freed ↦ faults
]

-- `_greeter_job`: the program that is started. `readable` says whether SP_GREETER can be read.
unfoldable pub greeter_job : Text → Text → Bool → ℕ → Text
greeter_job greeter fallback readable run_gen =
    if ltb run_gen fallback_run_generation && readable then greeter else fallback

module _ (session_get : ℕ → Option Text) (spawns : ℕ → Spawned) where
  -- The session of the greeter that runs or starts; a freed try is read.
  unfoldable pub session_of : SeatGreeter → Run (Option Text)
  session_of g = elim g.run_try [
    | null ↦ elim g.run_pid [ none ↦ returns none | some pid ↦ returns (session_get pid) ]
    | live pid ↦ returns (session_get pid)
    | freed ↦ faults
  ]

  -- `greeter_activate` on the greeter of the seat, with fuel: `_greeter_start_done` calls it again
  -- for the same seat, and so for the same element.
  unfoldable pub activate : ℕ → SeatGreeter → Effects → Run (SeatGreeter × Effects)
  unfolding run_reset
  activate zero g fx = out_of_fuel
  activate (suc fuel) g fx =
      let fx' = record fx { spawned = fx.spawned + 1 } in
      let again : Run (SeatGreeter × Effects) =
        elim (activate fuel (run_reset (record g { run_gen = g.run_gen + 1 })) fx') [
          | returns (h, gx) ↦ returns (record h { run_try = freed }, gx)
          | faults ↦ faults
          | out_of_fuel ↦ out_of_fuel
        ] in
      let spawn : Run (SeatGreeter × Effects) = elim (spawns fx.spawned) [
        | no_pipe ↦ returns (record g { run_try = null }, fx')
        | child pid ↦ returns (record g { run_try = live pid }, fx')
        | failure ↦ again
      ] in
      let start : Run (SeatGreeter × Effects) =
        if ltb fallback_run_generation g.run_gen then returns (g, fx) else spawn in
      elim (session_of g) [
        | faults ↦ faults
        | out_of_fuel ↦ out_of_fuel
        | returns (some s) ↦ returns (g, record fx { activated = fx.activated ++ s ∷ [] })
        | returns none ↦ start
      ]

  -- `_greeter_run_reset` and the activation of the greeter's seat, once more.
  unfoldable pub restart : ℕ → SeatGreeter → Effects → Run (SeatGreeter × Effects)
  unfolding run_reset activate
  restart fuel g fx = activate fuel (run_reset (record g { run_gen = g.run_gen + 1 })) fx

  -- `_greeter_done`: the greeter process died. `none` takes the greeter off the list. Both messages
  -- to the log read the pid.
  unfoldable pub greeter_done : ℕ → SeatGreeter → Effects → Run (Option SeatGreeter × Effects)
  unfolding restart seat_greeter_pid_get
  greeter_done fuel g fx =
      let again : Run (Option SeatGreeter × Effects) = elim (restart fuel g fx) [
        | returns (h, gx) ↦ returns (some h, gx)
        | faults ↦ faults
        | out_of_fuel ↦ out_of_fuel
      ] in
      elim (seat_greeter_pid_get g) [
        | returns pid ↦ if g.end then returns (none, fx) else again
        | faults ↦ faults
        | out_of_fuel ↦ out_of_fuel
      ]

  -- `_greeter_start_done` for a try of that greeter, called after `spawnservice_spawn` returned. All
  -- messages to the log read the pid.
  unfoldable pub greeter_start_done : ℕ → Bool → SeatGreeter → Effects → Run (SeatGreeter × Effects)
  unfolding restart seat_greeter_pid_get
  greeter_start_done fuel false g fx =
      let again = restart fuel g fx in
      elim (seat_greeter_pid_get g) [
        | returns pid ↦ again
        | faults ↦ faults
        | out_of_fuel ↦ out_of_fuel
      ]
  greeter_start_done fuel true g fx = elim g.run_try [
    | live pid ↦ returns (
      record g { run_pid = some pid; run_try = null },
      record fx { listened = fx.listened ++ pid ∷ [] },
    )
    | _ ↦ faults
  ]

  -- `greeter_activate`: the greeter of the seat is found or added.
  unfoldable pub greeter_activate :
      ℕ → Text → List SeatGreeter → Effects → Run (List SeatGreeter × Effects)
  unfolding greeter_new greeter_search greeter_write
  greeter_activate fuel seat gs fx = elim (greeter_search seat gs) [
    | none ↦ elim (activate fuel (greeter_new seat) fx) [
      | returns (g, gx) ↦ returns (gs ++ g ∷ [], gx)
      | faults ↦ faults
      | out_of_fuel ↦ out_of_fuel
    ]
    | some g ↦ elim (activate fuel g fx) [
      | returns (h, gx) ↦ returns (greeter_write h gs, gx)
      | faults ↦ faults
      | out_of_fuel ↦ out_of_fuel
    ]
  ]

  -- The death of a greeter, which `_greeter_done` handles: what becomes of the list. `place` is the
  -- address of an element, kept since the greeter was started: the index that it has in the array as
  -- it is now, or `none` where the array was moved by `realloc`.
  unfoldable pub greeter_died :
      ℕ → Option ℕ → List SeatGreeter → Effects → Run (List SeatGreeter × Effects)
  unfolding greeter_done greeter_write greeter_del
  greeter_died fuel place gs fx = elim (place >>= λ i. get_elem? gs i) [
    | none ↦ faults
    | some g ↦ elim (greeter_done fuel g fx) [
      | returns (some h, gx) ↦ returns (greeter_write h gs, gx)
      | returns (none, gx) ↦ returns (greeter_del g.seat gs, gx)
      | faults ↦ faults
      | out_of_fuel ↦ out_of_fuel
    ]
  ]

-- `greeter_lockout`; a seat with no greeter is only logged. A NULL seat is compared with those of
-- the list, if there are any.
unfoldable pub greeter_lockout : Option Text → List SeatGreeter → Run (List SeatGreeter)
unfolding greeter_search greeter_write
greeter_lockout none [] = returns []
greeter_lockout none (g ∷ gs) = faults
greeter_lockout (some seat) gs = elim (greeter_search seat gs) [
  | none ↦ returns gs
  | some g ↦ returns (greeter_write (record g { end = true }) gs)
]

-- `greeter_exists_sid`; `getsid` fails on -1.
unfoldable pub greeter_exists_sid : (ℕ → Option ℕ) → ℕ → List SeatGreeter → Run Bool
unfolding seat_greeter_pid_get
greeter_exists_sid getsid sid [] = returns false
greeter_exists_sid getsid sid (g ∷ gs) =
    let rest = greeter_exists_sid getsid sid gs in
    elim (seat_greeter_pid_get g) [
      | faults ↦ faults
      | out_of_fuel ↦ out_of_fuel
      | returns none ↦ rest
      | returns (some pid) ↦ elim (getsid pid) [
        | none ↦ rest
        | some s ↦ if s == sid then returns true else rest
      ]
    ]
