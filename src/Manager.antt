-- ===== src/Manager.antt =====
-- sp-daemon/manager.c: the registered descriptors and the rounds of `manager_run`.
-- A callback is an address, a number; `none` is NULL. What `select` reports is a parameter, and what
-- a callback does: a new world, and its requests of the manager.
pub mod Marks
pub mod Rounds
pub mod Watched
use spawny.Base.{
  ℕ, zero, suc, ◌+◌, Bool, true, false, List, [], ◌∷◌, ◌++◌, map, Option, none, some, ◌==◌,
  if◌then◌else◌, get_elem?, ◌>>=◌,
}

pub record FdRegister : Type 0 where
  pub fd : ℕ
  pub cb : Option ℕ

pub record Manager : Type 0 where
  pub fds : List FdRegister
  pub stop : Bool
  pub changes : ℕ
  pub readout : Bool

-- `_clear_objects`: deletes the first entry whose callback is NULL.
unfoldable pub clear_objects : List FdRegister → List FdRegister
clear_objects [] = []
clear_objects (r ∷ rs) = let rest = clear_objects rs in elim r.cb [ none ↦ rs | some c ↦ r ∷ rest ]

unfoldable pub manager_register_fd : ℕ → ℕ → Manager → Manager
manager_register_fd fd cb m =
    let r : FdRegister = record { fd = fd; cb = some cb } in record m { fds = m.fds ++ r ∷ [] }

-- The loop of `manager_unregister_fd`.
unfoldable pub mark : ℕ → List FdRegister → List FdRegister
mark fd [] = []
mark fd (r ∷ rs) = (if r.fd == fd then record r { cb = none } else r) ∷ mark fd rs

unfoldable pub manager_unregister_fd : ℕ → Manager → Manager
unfolding mark clear_objects
manager_unregister_fd fd m =
    let marked = mark fd m.fds in
    if m.readout
    then record m { fds = marked; changes = m.changes + 1 }
    else record m { fds = clear_objects marked }

-- What a callback asks of the manager.
pub data Request : Type 0 where
  register : ℕ → ℕ → Request
  unregister : ℕ → Request
  stops : Request

unfoldable pub manager_stop : Manager → Manager
manager_stop m = record m { stop = true }

unfoldable pub request : Request → Manager → Manager
unfolding manager_stop
request (register fd cb) m = manager_register_fd fd cb m
request (unregister fd) m = manager_unregister_fd fd m
request stops m = manager_stop m

unfoldable pub requests : List Request → Manager → Manager
requests [] m = m
requests (q ∷ qs) m = requests qs (request q m)

-- `for (; changes > 0; changes--) _clear_objects ();`
unfoldable pub flush : ℕ → List FdRegister → List FdRegister
unfolding clear_objects
flush zero rs = rs
flush (suc n) rs = flush n (clear_objects rs)

-- The descriptors that go into the two sets: those of entries with a callback.
unfoldable pub watched : List FdRegister → List ℕ
watched [] = []
watched (r ∷ rs) = elim r.cb [ none ↦ watched rs | some c ↦ r.fd ∷ watched rs ]

-- `select` answers -1 with or without EINTR, or which of the watched descriptors have an error and
-- which can be read.
pub data Selected : Type 0 where
  interrupted broken : Selected
  ready : (ℕ → Bool) → (ℕ → Bool) → Selected

module _ {W : Type 0} (react : ℕ → ℕ → W → W × List Request) where
  -- `_error_available`
  unfoldable pub error_available : FdRegister → W × Manager → W × Manager
  error_available r (w, m) = (w, manager_unregister_fd r.fd m)

  -- `_read_available`
  unfoldable pub read_available : FdRegister → W × Manager → W × Manager
  read_available r (w, m) = elim r.cb [
    | none ↦ (w, m)
    | some c ↦ ((react c r.fd w).0, requests (react c r.fd w).1 m)
  ]

  -- The loop of `_fd_set_check` from index `i` on, with fuel: the length is read in every round.
  unfoldable pub check_loop :
      (FdRegister → W × Manager → W × Manager)
      → (ℕ → Bool)
      → ℕ
      → ℕ
      → W × Manager
      → Option (W × Manager)
  check_loop handle set zero i s = none
  check_loop handle set (suc fuel) i s = elim (get_elem? s.1.fds i) [
    | none ↦ some s
    | some r ↦ check_loop handle set fuel (suc i) (if set r.fd then handle r s else s)
  ]

  abbrev flushed : W × Manager → W × Manager
  flushed (w, m) = (w, record m { fds = flush m.changes m.fds; changes = 0; readout = false })

  -- One round of `manager_run` behind `select`, and whether it goes on: on an error it returns 0.
  unfoldable pub manager_round :
      ℕ → (List ℕ → W → Selected) → W × Manager → Option (W × Manager × Bool)
  unfolding check_loop error_available read_available
  manager_round fuel select (w, m) = elim (select (watched m.fds) w) [
    | broken ↦ some (w, record m { readout = false }, false)
    | interrupted ↦ let (w', m') = flushed (w, m) in some (w', m', true)
    | ready errors reads ↦
        check_loop error_available errors fuel 0 (w, record m { readout = true }) >>= λ s.
        check_loop read_available reads fuel 0 s >>= λ s'.
        some ((flushed s').0, (flushed s').1, true)
  ]

  -- `manager_run`, with fuel for its rounds and for the loops in each: what it returns and leaves.
  unfoldable pub manager_run :
      ℕ → ℕ → (List ℕ → W → Selected) → W × Manager → Option (W × Manager × Bool)
  unfolding manager_round
  manager_run zero fuel select s = none
  manager_run (suc rounds) fuel select (w, m) =
      let next : Option (W × Manager × Bool) = elim (manager_round fuel select (w, m)) [
        | none ↦ none
        | some (w', m', false) ↦ some (w', m', false)
        | some (w', m', true) ↦ manager_run rounds fuel select (w', m')
      ] in
      if m.stop then some (w, m, true) else next
