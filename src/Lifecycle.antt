-- ===== src/Lifecycle.antt =====
-- `_resolve_process_fate` of src/flnr/_echafaud.py, cut at its three awaits: one function for the
-- code between two of them, and a step relation in which the child, the event setters and the event
-- loop move in any order. The waits of asyncio return when their condition holds or when their
-- timeout has passed; how long that takes is not modelled. `asyncio.wait_for` gives the result of a
-- task that is done, and a timeout only of one that still runs.
pub mod Invariant
pub mod Outcome
pub mod Progress
pub mod Events
mod Tests
use flnr.Base.{
  ◌≡◌, ◌≢◌, ◌⊎◌, Bool, true, false, not, Option, none, some, List, [], ◌∷◌, ◌++◌, if◌then◌else◌,
  is_some,
}
use flnr.Base.Int.{ℤ}
use flnr.Floats.{PyFloat}
use flnr.Fate.{
  ProcessTerminationDecision, no_intervention, timeout, external_request, internal_failure,
  ProcessTerminationMethod, method_none, terminate, kill, ProcessFate,
}

-- `process.terminate()` and `process.kill()`, as the child is sent them
pub data Signal : Type 0 where
  sigterm sigkill : Signal

-- The task that waits for the exit: it may itself end in an exception of asyncio.
pub data TaskState : Type 0 where
  running finished raised : TaskState

-- Where the coroutine waits, with the local variables that are live there.
pub data Phase : Type 0 where
  watching : Phase
  terminating : ProcessTerminationDecision → Phase
  confirming : ProcessTerminationDecision → ProcessTerminationMethod → Phase
  resolved : ProcessFate → Phase
  -- an exception left the coroutine: of the exit task, of `terminate()`, or an assertion
  failed : Phase

pub record World : Type 0 where
  -- the child as asyncio shows it, and the signals sent to it, in order
  pub returncode : Option ℤ
  pub signals : List Signal
  -- the three events of the scope
  pub fatal_reader_error : Bool
  pub ext_termination_request : Bool
  pub monitor_callbacks_allowed : Bool
  -- the three tasks of the ledger; the last two end once their event was seen
  pub process_exit_task : TaskState
  pub fatal_reader_error_done : Bool
  pub ext_termination_request_done : Bool
  pub tasks_cancelled : Bool
  pub phase : Phase

-- `_attempt_to_kill`
unfoldable pub attempt_to_kill : World → World
attempt_to_kill w =
    if is_some w.returncode then w else record w { signals = w.signals ++ sigkill ∷ [] }

-- The outer `finally`: the ledger's tasks are cancelled on every way out.
unfoldable pub leave : Phase → World → World
leave p w = record w { phase = p; tasks_cancelled = true }

-- From the decision to the last wait: the assertion, the pause, and the wait.
unfoldable pub confirm : ProcessTerminationDecision → ProcessTerminationMethod → World → World
unfolding leave
confirm d m w =
    if w.monitor_callbacks_allowed
    then record w { monitor_callbacks_allowed = false; phase = confirming d m }
    else leave failed w

abbrev pub is_done : TaskState → Bool
is_done running = false
is_done finished = true
is_done raised = true

-- After the first wait returned: `done_tasks` is what is done at that time.
unfoldable pub after_first_wait : World → World
unfolding attempt_to_kill confirm
after_first_wait w =
    if w.fatal_reader_error_done
    then confirm internal_failure kill (attempt_to_kill w)
    else if not (is_done w.process_exit_task)
    then record w {
      signals = w.signals ++ sigterm ∷ [];
      phase = terminating (if w.ext_termination_request_done then external_request else timeout);
    }
    else confirm no_intervention method_none w

-- After `terminate()` raised, since the child was gone: the exception leaves the coroutine.
pub after_terminate_error : World → World
unfolding leave
after_terminate_error w = leave failed w

-- After the second wait: the exit was seen, its task raised, or the grace period passed.
pub after_exit_in_grace : ProcessTerminationDecision → World → World
unfolding confirm leave
after_exit_in_grace d w = elim w.process_exit_task [
  | raised ↦ leave failed w
  | _ ↦ confirm d terminate w
]

pub after_grace_expired : ProcessTerminationDecision → World → World
unfolding confirm attempt_to_kill
after_grace_expired d w = confirm d kill (attempt_to_kill w)

-- The inner `finally`: monitors are resumed, where they were paused.
unfoldable pub resume_monitors : Phase → World → World
unfolding leave
resume_monitors p w =
    if w.monitor_callbacks_allowed
    then leave failed w
    else leave p (record w { monitor_callbacks_allowed = true })

abbrev pub fate : ProcessTerminationDecision → ProcessTerminationMethod → Option ℤ → ProcessFate
fate d m c = record { termination_decision = d; termination_method = m; returncode = c }

-- After the last wait: the exit was seen, or its task raised; or no exit was seen in time.
unfoldable pub after_exit_confirmed :
    ProcessTerminationDecision → ProcessTerminationMethod → World → World
unfolding resume_monitors
after_exit_confirmed d m w = elim w.process_exit_task [
  | raised ↦ resume_monitors failed w
  | _ ↦ resume_monitors (resolved (fate d m w.returncode)) w
]

pub after_confirmation_expired :
    ProcessTerminationDecision → ProcessTerminationMethod → World → World
unfolding resume_monitors
after_confirmation_expired d m w = resume_monitors (resolved (fate d m none)) w

-- A run begins with monitor callbacks allowed and nothing sent; a host request may be set already.
unfoldable pub start : Bool → World
start requested = record {
  returncode = none;
  signals = [];
  fatal_reader_error = false;
  ext_termination_request = requested;
  monitor_callbacks_allowed = true;
  process_exit_task = running;
  fatal_reader_error_done = false;
  ext_termination_request_done = false;
  tasks_cancelled = false;
  phase = watching;
}

-- What may make the first wait return; the last is the run timeout, where there is one.
pub data Wakes (run : Option PyFloat) (w : World) : Type 0 where
  by_exit : is_done w.process_exit_task ≡ true → Wakes run w
  by_reader : w.fatal_reader_error_done ≡ true → Wakes run w
  by_request : w.ext_termination_request_done ≡ true → Wakes run w
  by_timeout : is_some run ≡ true → Wakes run w

-- One move of the child, of an event setter, of a task of the ledger, or of the coroutine.
pub data Step (run : Option PyFloat) : World → World → Type 0 where
  child_exits :
      (w : World) (c : ℤ) → w.returncode ≡ none → Step run w (record w { returncode = some c })
  reader_fails : (w : World) → Step run w (record w { fatal_reader_error = true })
  host_requests : (w : World) → Step run w (record w { ext_termination_request = true })
  exit_seen :
      (w : World)
      → is_some w.returncode ≡ true
      → w.process_exit_task ≡ running
      → Step run w (record w { process_exit_task = finished })
  exit_task_raises :
      (w : World)
      → w.process_exit_task ≡ running
      → Step run w (record w { process_exit_task = raised })
  failure_seen :
      (w : World)
      → w.fatal_reader_error ≡ true
      → Step run w (record w { fatal_reader_error_done = true })
  request_seen :
      (w : World)
      → w.ext_termination_request ≡ true
      → Step run w (record w { ext_termination_request_done = true })
  first_wait_returns :
      (w : World) → w.phase ≡ watching → Wakes run w → Step run w (after_first_wait w)
  -- `terminate()` finds the child gone, before its exit task has seen that
  terminate_raises :
      (w : World)
      → w.phase ≡ watching
      → Wakes run w
      → w.fatal_reader_error_done ≡ false
      → w.process_exit_task ≡ running
      → is_some w.returncode ≡ true
      → Step run w (after_terminate_error w)
  grace_ends :
      (w : World) (d : ProcessTerminationDecision)
      → w.phase ≡ terminating d
      → is_done w.process_exit_task ≡ true
      → Step run w (after_exit_in_grace d w)
  grace_expires :
      (w : World) (d : ProcessTerminationDecision)
      → w.phase ≡ terminating d
      → w.process_exit_task ≡ running
      → Step run w (after_grace_expired d w)
  confirmation_ends :
      (w : World) (d : ProcessTerminationDecision) (m : ProcessTerminationMethod)
      → w.phase ≡ confirming d m
      → is_done w.process_exit_task ≡ true
      → Step run w (after_exit_confirmed d m w)
  confirmation_expires :
      (w : World) (d : ProcessTerminationDecision) (m : ProcessTerminationMethod)
      → w.phase ≡ confirming d m
      → w.process_exit_task ≡ running
      → Step run w (after_confirmation_expired d m w)

-- A run from the world `first`, move by move.
pub data Reach (run : Option PyFloat) (first : World) : World → Type 0 where
  begun : Reach run first first
  moved : {w v : World} → Reach run first w → Step run w v → Reach run first v
