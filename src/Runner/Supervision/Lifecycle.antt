-- ===== src/Runner/Supervision/Lifecycle.antt =====
-- What the fate coroutine's own moves leave alone (src/flnr/_echafaud.py), as the rest of a run
-- (src/flnr/flnr.py) relies on it.
use flnr.Base.{
  ◌≡◌, ◌⊎◌, refl, ap, Bool, true, false, not, ◌&&◌, Option, inl, inr, if◌then◌else◌, arith,
}
use flnr.Floats.{PyFloat}
use flnr.Reader.{Reader}
use flnr.EnvMonitor.{running}
use flnr.Lifecycle.{
  World, Step, child_exits, reader_fails, host_requests, exit_seen, exit_task_raises, failure_seen,
  request_seen, first_wait_returns, terminate_raises, grace_ends, grace_expires, confirmation_ends,
  confirmation_expires,
}
use flnr.Lifecycle.Invariant.{IsSound, Step-IsSound}
use flnr.Runner.Supervision.{fate_task_of, tell_lifecycle}

-- A phase in which a fate or an exception is there is not left.
pub Step-settled :
    {run : Option PyFloat} {l l' : World}
    → Step run l l'
    → (fate_task_of l.phase ≡ running) ⊎ (l'.phase ≡ l.phase)
unfolding fate_task_of
Step-settled (child_exits w c h) = inr refl
Step-settled (reader_fails w) = inr refl
Step-settled (host_requests w) = inr refl
Step-settled (exit_seen w h k) = inr refl
Step-settled (exit_task_raises w h) = inr refl
Step-settled (failure_seen w h) = inr refl
Step-settled (request_seen w h) = inr refl
Step-settled (first_wait_returns w e h) = inl (ap fate_task_of e)
Step-settled (terminate_raises w e h a b c) = inl (ap fate_task_of e)
Step-settled (grace_ends w d e h) = inl (ap fate_task_of e)
Step-settled (grace_expires w d e h) = inl (ap fate_task_of e)
Step-settled (confirmation_ends w d m e h) = inl (ap fate_task_of e)
Step-settled (confirmation_expires w d m e h) = inl (ap fate_task_of e)

-- `fatal_reader_error.set()` is a move of the fate coroutine's surroundings.
pub tell_lifecycle-IsSound :
    {run : Option PyFloat} (r : Reader) (l : World)
    → IsSound run l
    → IsSound run (tell_lifecycle r l)
unfolding tell_lifecycle
tell_lifecycle-IsSound {run} r l s = by_test r.fatal_reader_error
  where
    by_test : (b : Bool) → IsSound run (if b then record l { fatal_reader_error = true } else l)
    by_test true = Step-IsSound (reader_fails l) s
    by_test false = s

-- It leaves the rest as it is.
pub record IsTold (r : Reader) (l l' : World) : Type 0 where
  pub heard : (r.fatal_reader_error && not l'.fatal_reader_error) ≡ false
  pub kept : (l'.fatal_reader_error ≡ l.fatal_reader_error) ⊎ (l'.fatal_reader_error ≡ true)
  pub same_phase : l'.phase ≡ l.phase
  pub same_allowed : l'.monitor_callbacks_allowed ≡ l.monitor_callbacks_allowed

pub tell_lifecycle-IsTold : (r : Reader) (l : World) → IsTold r l (tell_lifecycle r l)
unfolding tell_lifecycle
tell_lifecycle-IsTold r l = record {
  heard = ground arith;
  kept = ground arith;
  same_phase = ground arith;
  same_allowed = ground arith;
}

-- What a reader has told stays told.
pub still_told :
    (fatal : Bool) (l l' : World)
    → (l'.fatal_reader_error ≡ l.fatal_reader_error) ⊎ (l'.fatal_reader_error ≡ true)
    → (fatal && not l.fatal_reader_error) ≡ false
    → (fatal && not l'.fatal_reader_error) ≡ false
still_told fatal l l' k h = ground arith
