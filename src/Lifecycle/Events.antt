-- ===== src/Lifecycle/Events.antt =====
-- The fate coroutine (src/flnr/_echafaud.py) never clears the event of a fatal reader error.
use flnr.Base.{◌≡◌, ◌⊎◌, refl, true, Option, inl, inr, arith}
use flnr.Floats.{PyFloat}
use flnr.Fate.{ProcessTerminationDecision, ProcessTerminationMethod}
use flnr.Lifecycle.{
  World, Step, attempt_to_kill, leave, confirm, after_first_wait, after_terminate_error,
  after_exit_in_grace, after_grace_expired, resume_monitors, after_exit_confirmed,
  after_confirmation_expired, child_exits, reader_fails, host_requests, exit_seen, exit_task_raises,
  failure_seen, request_seen, first_wait_returns, terminate_raises, grace_ends, grace_expires,
  confirmation_ends, confirmation_expires,
}

confirm_fatal :
    (d : ProcessTerminationDecision) (m : ProcessTerminationMethod) (w : World)
    → (confirm d m w).fatal_reader_error ≡ w.fatal_reader_error
unfolding confirm leave
confirm_fatal d m w = ground arith

attempt_to_kill_fatal : (w : World) → (attempt_to_kill w).fatal_reader_error ≡ w.fatal_reader_error
unfolding attempt_to_kill
attempt_to_kill_fatal w = ground arith

first_wait_fatal : (w : World) → (after_first_wait w).fatal_reader_error ≡ w.fatal_reader_error
unfolding after_first_wait attempt_to_kill confirm leave
first_wait_fatal w = ground arith

grace_fatal :
    (d : ProcessTerminationDecision) (w : World)
    → (after_exit_in_grace d w).fatal_reader_error ≡ w.fatal_reader_error
unfolding after_exit_in_grace confirm leave
grace_fatal d w = ground arith

expired_fatal :
    (d : ProcessTerminationDecision) (w : World)
    → (after_grace_expired d w).fatal_reader_error ≡ w.fatal_reader_error
unfolding after_grace_expired attempt_to_kill confirm leave
expired_fatal d w = ground arith

confirmed_fatal :
    (d : ProcessTerminationDecision) (m : ProcessTerminationMethod) (w : World)
    → (after_exit_confirmed d m w).fatal_reader_error ≡ w.fatal_reader_error
unfolding after_exit_confirmed resume_monitors leave
confirmed_fatal d m w = ground arith

unconfirmed_fatal :
    (d : ProcessTerminationDecision) (m : ProcessTerminationMethod) (w : World)
    → (after_confirmation_expired d m w).fatal_reader_error ≡ w.fatal_reader_error
unfolding after_confirmation_expired resume_monitors leave
unconfirmed_fatal d m w = ground arith

pub Step-fatal :
    {run : Option PyFloat} {l l' : World}
    → Step run l l'
    → (l'.fatal_reader_error ≡ l.fatal_reader_error) ⊎ (l'.fatal_reader_error ≡ true)
unfolding after_terminate_error leave
Step-fatal (child_exits w c h) = inl refl
Step-fatal (reader_fails w) = inr refl
Step-fatal (host_requests w) = inl refl
Step-fatal (exit_seen w h k) = inl refl
Step-fatal (exit_task_raises w h) = inl refl
Step-fatal (failure_seen w h) = inl refl
Step-fatal (request_seen w h) = inl refl
Step-fatal (first_wait_returns w e h) = inl (first_wait_fatal w)
Step-fatal (terminate_raises w e h a b c) = inl refl
Step-fatal (grace_ends w d e h) = inl (grace_fatal d w)
Step-fatal (grace_expires w d e h) = inl (expired_fatal d w)
Step-fatal (confirmation_ends w d m e h) = inl (confirmed_fatal d m w)
Step-fatal (confirmation_expires w d m e h) = inl (unconfirmed_fatal d m w)
