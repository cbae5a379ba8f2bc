-- ===== src/Spawn/Parent.antt =====
-- spawnservice.c, the daemon's side of a try: `spawnservice_spawn`, `_child_data`,
-- `_spawned_session_disappear` and `_spawn_try_free`.
-- The memory of a try and its two registrations are fields: a message comes only while the pipe is
-- registered in the manager, the child's death only while the try listens in the registry.
use spawny.Base.{
  ℕ, ◌+◌, ◌≡◌, ◌⊎◌, inl, inr, refl, ap, ◌∙◌, Bool, true, false, not, ◌&&◌, List, [], ◌∷◌, ◌++◌,
  Option, none, some, Text, if◌then◌else◌,
}
use spawny.Spawn.Child.{Message, connect, setup_done, session_active, error_exit}

-- `Spawn_Service_End`: success, and the message.
pub record End : Type 0 where
  pub success : Bool
  pub message : Option Text

pub record SpawnTry : Type 0 where
  pub allocated : Bool
  pub pipe_registered : Bool
  pub listening : Bool
  pub session : Option Text
  pub error_msg : Option Text
  pub success : Bool
  -- what has been done: the calls of `done.cb`, the sessions activated, the kills
  pub done_calls : List End
  pub activated : List Text
  pub kills : ℕ

pub data Event : Type 0 where
  -- a message, with the session that `session_get` finds when it asks
  message : Message → Option Text → Event
  garbage : Event
  disappear : Event

-- `_spawn_try_free`
unfoldable pub spawn_try_free : SpawnTry → SpawnTry
spawn_try_free t =
    let end : End = record { success = t.success; message = t.error_msg } in
    record t {
      pipe_registered = false;
      done_calls = t.done_calls ++ end ∷ [];
      listening = false;
      allocated = false;
    }

-- `_child_data` behind its reading of a message.
unfoldable pub child_data : Message → Option Text → SpawnTry → SpawnTry
unfolding spawn_try_free
child_data connect found t = t
child_data setup_done none t = record t { session = none; kills = t.kills + 1 }
child_data setup_done (some s) t = record t { session = some s; activated = t.activated ++ s ∷ [] }
child_data session_active found t =
    spawn_try_free (record t { pipe_registered = false; success = true })
child_data (error_exit reason) found t = record t {
  pipe_registered = false;
  error_msg = some reason;
}

-- Each event reaches the code only where it is registered for it.
unfoldable pub step : Event → SpawnTry → SpawnTry
unfolding child_data spawn_try_free
step (message m found) t = if t.pipe_registered then child_data m found t else t
step garbage t =
    if t.pipe_registered then record t { pipe_registered = false; kills = t.kills + 1 } else t
step disappear t = if t.listening then spawn_try_free t else t

unfoldable pub run : List Event → SpawnTry → SpawnTry
run [] t = t
run (e ∷ es) t = run es (step e t)

-- The try as `calloc` and the first lines of `spawnservice_spawn` leave it.
abbrev pub fresh : SpawnTry
fresh = record {
  allocated = true;
  pipe_registered = false;
  listening = false;
  session = none;
  error_msg = none;
  success = false;
  done_calls = [];
  activated = [];
  kills = 0;
}

-- What `spawnservice_spawn` returns: NULL, or an address, whose memory may be freed already.
pub data Returned : Type 0 where
  null : Returned
  address : SpawnTry → Returned

-- `pipe`, the search for a terminal and `fork` fail or not; the daemon's branch of `child_run`.
unfoldable pub spawnservice_spawn : Bool → Bool → Bool → Returned
unfolding spawn_try_free
spawnservice_spawn pipe_ok tty_found fork_ok =
    if not pipe_ok
    then null
    else if tty_found && fork_ok
    then address (record fresh { pipe_registered = true; listening = true })
    else address (spawn_try_free fresh)

abbrev pub started : SpawnTry
started = record fresh { pipe_registered = true; listening = true }

-- What a try ends with, read off the events alone: the first of a report that the session is active
-- and the child's death decides; the pipe is read up to a report of an error or garbage.
abbrev pub verdict : Bool → Option Text → List Event → List End
verdict pipe err [] = []
verdict pipe err (disappear ∷ es) = record { success = false; message = err } ∷ []
verdict true err (message session_active found ∷ es) = record { success = true; message = err } ∷ []
verdict true err (message (error_exit reason) found ∷ es) = verdict false (some reason) es
verdict true err (message connect found ∷ es) = verdict true err es
verdict true err (message setup_done found ∷ es) = verdict true err es
verdict true err (garbage ∷ es) = verdict false err es
verdict false err (message m found ∷ es) = verdict false err es
verdict false err (garbage ∷ es) = verdict false err es

-- Freed, and registered nowhere: no event reaches the try any more.
abbrev pub IsGone : SpawnTry → Type 0
IsGone t = (t.allocated ≡ false) × (t.listening ≡ false) × (t.pipe_registered ≡ false)

step_gone : (e : Event) (t : SpawnTry) → IsGone t → step e t ≡ t
unfolding step
step_gone (message m found) t g = rw g.2
step_gone garbage t g = rw g.2
step_gone disappear t g = rw g.1

run_gone : (es : List Event) (t : SpawnTry) → IsGone t → run es t ≡ t
unfolding run
run_gone [] t g = refl
run_gone (e ∷ es) t g = rw (step_gone e t g) (run_gone es t g)

-- Allocated, listening, and not reported yet.
abbrev pub IsPending : SpawnTry → Type 0
IsPending t = (t.listening ≡ true) × (t.success ≡ false) × (t.done_calls ≡ [])

run_on :
    (e : Event) (es : List Event) (t u : SpawnTry) {ends : List End}
    → step e t ≡ u
    → (run es u).done_calls ≡ ends
    → (run (e ∷ es) t).done_calls ≡ ends
unfolding run
run_on e es t u h k = ap (λ (v : SpawnTry). (run es v).done_calls) h ∙ k

run_freed :
    (es : List Event) (t : SpawnTry)
    → t.done_calls ≡ []
    → (run es (spawn_try_free t)).done_calls
      ≡ record { success = t.success; message = t.error_msg } ∷ []
unfolding spawn_try_free
run_freed es t h =
    ap (λ (v : SpawnTry). v.done_calls) (run_gone es (spawn_try_free t) (refl, refl, refl)) ∙ rw h

run_pending :
    (es : List Event) (t : SpawnTry) (pipe : Bool) (err : Option Text)
    → IsPending t
    → t.pipe_registered ≡ pipe
    → t.error_msg ≡ err
    → (run es t).done_calls ≡ verdict pipe err es
unfolding step
run_pending [] t pipe err p r m = unfold run in p.2
run_pending (disappear ∷ es) t true err p r m =
    run_on disappear es t (spawn_try_free t) (rw p.0) (run_freed es t p.2 ∙ rw (p.1, m))
run_pending (disappear ∷ es) t false err p r m =
    run_on disappear es t (spawn_try_free t) (rw p.0) (run_freed es t p.2 ∙ rw (p.1, m))
run_pending (garbage ∷ es) t true err p r m =
    run_on garbage es t (record t { pipe_registered = false; kills = t.kills + 1 }) (rw r)
      (run_pending es _ false err p refl m)
run_pending (garbage ∷ es) t false err p r m =
    run_on garbage es t t (rw r) (run_pending es t false err p r m)
run_pending (message x found ∷ es) t false err p r m =
    run_on (message x found) es t t (rw r) (run_pending es t false err p r m)
run_pending (message connect found ∷ es) t true err p r m =
    run_on (message connect found) es t t (rw r) (run_pending es t true err p r m)
run_pending (message setup_done none ∷ es) t true err p r m =
    run_on (message setup_done none) es t (record t { session = none; kills = t.kills + 1 }) (rw r)
      (run_pending es _ true err p r m)
run_pending (message setup_done (some s) ∷ es) t true err p r m =
    run_on (message setup_done (some s)) es t
      (record t { session = some s; activated = t.activated ++ s ∷ [] }) (rw r)
      (run_pending es _ true err p r m)
run_pending (message session_active found ∷ es) t true err p r m =
    run_on (message session_active found) es t
      (spawn_try_free (record t { pipe_registered = false; success = true })) (rw r)
      (run_freed es (record t { pipe_registered = false; success = true }) p.2 ∙ rw m)
run_pending (message (error_exit reason) found ∷ es) t true err p r m =
    run_on (message (error_exit reason) found) es t
      (record t { pipe_registered = false; error_msg = some reason }) (rw r)
      (run_pending es _ false (some reason) p refl refl)

-- From its start on, whatever events arrive, the owner of a try is told at most once, and what it
-- is told is the verdict: the first of a report that the session is active, on a pipe that is
-- still read, and the child's death decides, with the last reason that was reported.
pub run-verdict : (es : List Event) → (run es started).done_calls ≡ verdict true none es
run-verdict es = run_pending es started true none (refl, refl, refl) refl refl

data_settled :
    (m : Message) (found : Option Text) (t : SpawnTry)
    → IsPending t
    → IsPending (child_data m found t) ⊎ IsGone (child_data m found t)
unfolding child_data spawn_try_free
data_settled connect found t p = inl p
data_settled setup_done none t p = inl p
data_settled setup_done (some s) t p = inl p
data_settled session_active found t p = inr (refl, refl, refl)
data_settled (error_exit reason) found t p = inl p

if_settled :
    (b : Bool) (t u : SpawnTry)
    → IsPending t ⊎ IsGone t
    → IsPending u ⊎ IsGone u
    → IsPending (if b then t else u) ⊎ IsGone (if b then t else u)
if_settled true t u h k = h
if_settled false t u h k = k

step_settled :
    (e : Event) (t : SpawnTry) → IsPending t ⊎ IsGone t → IsPending (step e t) ⊎ IsGone (step e t)
unfolding step
step_settled e t (inr g) = inr (rw (step_gone e t g) g)
step_settled disappear t (inl p) = inr (rw p.0 (refl, refl, refl))
step_settled garbage t (inl p) =
    if_settled t.pipe_registered (record t { pipe_registered = false; kills = t.kills + 1 }) t
      (inl p) (inl p)
step_settled (message m found) t (inl p) =
    if_settled t.pipe_registered (child_data m found t) t (data_settled m found t p) (inl p)

run_settled :
    (es : List Event) (t : SpawnTry)
    → IsPending t ⊎ IsGone t
    → IsPending (run es t) ⊎ IsGone (run es t)
unfolding run
run_settled [] t h = h
run_settled (e ∷ es) t h = run_settled es (step e t) (step_settled e t h)

-- A try is pending, or it is freed, and then registered nowhere.
pub run-Settled : (es : List Event) → IsPending (run es started) ⊎ IsGone (run es started)
run-Settled es = run_settled es started (inl (refl, refl, refl))
