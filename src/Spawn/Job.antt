-- ===== src/Spawn/Job.antt =====
-- spawnservice.c: the end of the child, which starts the job of the try and waits for it.
use spawny.Base.{Bool, List, [], ◌∷◌, ◌++◌, if◌then◌else◌}

-- What `fork` made of the process that reads on.
pub data Forked : Type 0 where
  in_job in_waiter no_fork : Forked

pub data Deed : Type 0 where
  runs_job waits session_ended exits : Deed

-- `_session_proc_fire_up`, for a try with a job and an end of the session, or without: what the
-- process does.
unfoldable pub session_proc_fire_up : Bool → Bool → Forked → List Deed
session_proc_fire_up job ended in_job = (if job then runs_job ∷ [] else []) ++ exits ∷ []
session_proc_fire_up job ended no_fork = exits ∷ []
session_proc_fire_up job ended in_waiter =
    waits ∷ ((if ended then session_ended ∷ [] else []) ++ exits ∷ [])
