-- ===== src/SpawnRegistry.antt =====
-- sp-daemon/spawnregistery.c: who is told when a child process dies.
-- A handler and its `void *` are addresses, numbers, and 0 is NULL. What a handler does to the rest
-- of the daemon is a world `W`; what it asks of this registry is a list of requests.
pub mod Cleanup
pub mod Wipe
pub mod Eval
pub mod Listening
use spawny.Base.{
  ℕ, zero, suc, ◌+◌, Bool, true, false, ◌&&◌, not, List, [], ◌∷◌, ◌++◌, map, Option, none, some,
  ◌==◌, ltb, if◌then◌else◌, length, get_elem?, delete_at, ◌>>=◌,
}

pub record Waiting : Type 0 where
  pub pid : ℕ
  pub handler : ℕ
  pub data_ptr : ℕ

pub record Registry : Type 0 where
  pub pending_process : List Waiting
  pub eval_mode : Bool

abbrev pub init : Registry
init = record { pending_process = []; eval_mode = false }

-- `memset (w, 0, sizeof (Waiting))`
abbrev pub zeroed : Waiting
zeroed = record { pid = 0; handler = 0; data_ptr = 0 }

unfoldable pub listen : ℕ → ℕ → ℕ → Registry → Registry
listen pid handler ptr r =
    let w : Waiting = record { pid = pid; handler = handler; data_ptr = ptr } in
    record r { pending_process = r.pending_process ++ w ∷ [] }

-- `_spawnregistery_cleanup_step`: drops the first entry with no handler.
unfoldable pub cleanup_step : List Waiting → List Waiting × Bool
cleanup_step [] = ([], false)
cleanup_step (w ∷ ws) =
    let rest = cleanup_step ws in if w.handler == 0 then (ws, true) else (w ∷ rest.0, rest.1)

-- `_spawnregistery_cleanup`, with fuel.
unfoldable pub cleanup : ℕ → List Waiting → Option (List Waiting)
cleanup zero ws = none
cleanup (suc fuel) ws = elim (cleanup_step ws).1 [
  | true ↦ cleanup fuel (cleanup_step ws).0
  | false ↦ some ws
]

-- One round for each entry, and one to see that nothing is left.
unfoldable pub cleanup_all : List Waiting → Option (List Waiting)
cleanup_all ws = cleanup (suc (length ws)) ws

abbrev pub matches : ℕ → ℕ → ℕ → Waiting → Bool
matches pid handler ptr w = w.pid == pid && w.handler == handler && w.data_ptr == ptr

unfoldable pub zero_matching : ℕ → ℕ → ℕ → List Waiting → List Waiting
zero_matching pid handler ptr [] = []
zero_matching pid handler ptr (w ∷ ws) =
    (if matches pid handler ptr w then zeroed else w) ∷ zero_matching pid handler ptr ws

unfoldable pub unlisten : ℕ → ℕ → ℕ → Registry → Option Registry
unfolding zero_matching
unlisten pid handler ptr r =
    let ws = zero_matching pid handler ptr r.pending_process in
    let cleaned = cleanup_all ws >>= λ vs. some (record r { pending_process = vs }) in
    if r.eval_mode then some (record r { pending_process = ws }) else cleaned

pub data Request : Type 0 where
  listens unlistens : ℕ → ℕ → ℕ → Request

unfoldable pub request : Request → Registry → Option Registry
request (listens pid handler ptr) r = some (listen pid handler ptr r)
request (unlistens pid handler ptr) r = unlisten pid handler ptr r

unfoldable pub requests : List Request → Registry → Option Registry
requests [] r = some r
requests (q ∷ qs) r = request q r >>= λ r'. requests qs r'

-- `react handler data status pid` is a call of the handler.
module _ {W : Type 0} (react : ℕ → ℕ → ℕ → ℕ → W → W × List Request) where
  -- One round of the inner loop of `spawnregistery_eval`: a NULL handler would be called.
  unfoldable pub notify : ℕ → ℕ → Waiting → W × Registry → Option (W × Registry)
  notify pid status w (world, r) =
      let (world', asked) = react w.handler w.data_ptr status pid world in
      let told : Option (W × Registry) = requests asked r >>= λ r'.
      unlisten pid w.handler w.data_ptr r' >>= λ r''. some (world', r'') in
      if w.pid == pid then (if w.handler == 0 then none else told) else some (world, r)

  -- The inner loop from index `i` on, with fuel. The length is read again in every round.
  unfoldable pub notify_loop : ℕ → ℕ → ℕ → ℕ → W × Registry → Option (W × Registry)
  notify_loop zero pid status i s = none
  notify_loop (suc fuel) pid status i s = elim (get_elem? s.1.pending_process i) [
    | none ↦ some s
    | some w ↦ elim (notify pid status w s) [
      | none ↦ none
      | some s' ↦ notify_loop fuel pid status (suc i) s'
    ]
  ]

  -- The outer loop over the children that `waitpid` reports.
  unfoldable pub eval_loop : ℕ → List (ℕ × ℕ) → W × Registry → Option (W × Registry)
  eval_loop fuel [] s = some s
  eval_loop fuel ((pid, status) ∷ dead) s =
      notify_loop fuel pid status 0 s >>= λ s'. eval_loop fuel dead s'

  unfoldable pub spawnregistery_eval : ℕ → List (ℕ × ℕ) → W × Registry → Option (W × Registry)
  spawnregistery_eval fuel dead (world, r) =
      eval_loop fuel dead (world, record r { eval_mode = true }) >>= λ s.
      cleanup_all s.1.pending_process >>= λ vs.
      some (s.0, record { pending_process = vs; eval_mode = false })
