-- ===== src/Examples/Events.antt =====
-- manager.c at concrete inputs.
use spawny.Base.{ℕ, ◌+◌, ◌≡◌, refl, true, false, List, [], ◌∷◌, none, some, arith, ◌==◌, ◌||◌}
use spawny.Manager.{FdRegister, Manager, Request, unregister, ready, Selected, manager_round}
use spawny.Manager.Rounds.{Idle, manager_round-Idle}

abbrev entry : ℕ → FdRegister
entry fd = record { fd = fd; cb = some 1 }

abbrev gone : ℕ → FdRegister
gone fd = record { fd = fd; cb = none }

abbrev manager : Manager
manager = record {
  fds = entry 4 ∷ (entry 5 ∷ (entry 6 ∷ []));
  stop = false;
  changes = 0;
  readout = false;
}

manager-Idle : Idle manager
manager-Idle = record {
  all_live = refl;
  distinct = ((refl, (refl, tt)), ((refl, tt), (tt, tt)));
  no_changes = refl;
  not_reading = refl;
}

-- Each callback counts its calls and unregisters its descriptor.
abbrev react : ℕ → ℕ → ℕ → ℕ × List Request
react cb fd calls = (calls + 1, unregister fd ∷ [])

abbrev select : List ℕ → ℕ → Selected
select fds calls = ready (λ fd. fd == 5) (λ fd. fd == 4 || fd == 5)

round_example :
    (w' : ℕ) × (m' : Manager) × (manager_round react 4 select (0, manager) ≡ some (w', m', true))
    × Idle m'
round_example =
    manager_round-Idle react select (λ fd. fd == 5) (λ fd. fd == 4 || fd == 5) 4 0 manager
      manager-Idle (λ cb fd calls. tt) refl (omega arith)
