-- ===== src/ProcessExit.antt =====
-- `_wait_for_process_exit` of src/flnr/_process_utils.py, the process_exit_task of a run.
pub mod Rounds
mod Tests
use flnr.Base.{Bool, true, false, Option, none, some, List, [], ◌∷◌}
use flnr.Base.Int.{ℤ}
use flnr.Monitors.{PyException}

-- `process.wait()` as a task
pub data WaitTask : Type 0 where
  pending returned : WaitTask
  failed : PyException → WaitTask

-- What the end of an `asyncio.wait` finds: the task, and the return code of the process when the
-- loop looks at it next.
pub record Round : Type 0 where
  pub wait_task : WaitTask
  pub returncode : Option ℤ

pub data WaitEnd : Type 0 where
  still_waiting exit_seen : WaitEnd
  raises : PyException → WaitEnd

-- the loop, as far as the rounds are known
pub wait_rounds : Option ℤ → List Round → WaitEnd
wait_rounds (some code) rounds = exit_seen
wait_rounds none [] = still_waiting
wait_rounds none (r ∷ rounds) =
    let rest = wait_rounds r.returncode rounds in
    elim r.wait_task [ failed exc ↦ raises exc | _ ↦ rest ]

-- The outcome, and whether the task was cancelled and awaited, which it is on every way out.
pub wait_for_process_exit : Option ℤ → List Round → WaitEnd × Bool
unfolding wait_rounds
wait_for_process_exit code rounds =
    let how = wait_rounds code rounds in (how, elim how [ still_waiting ↦ false | _ ↦ true ])
