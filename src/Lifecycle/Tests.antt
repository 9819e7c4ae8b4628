-- ===== src/Lifecycle/Tests.antt =====
-- A run of `_resolve_process_fate` (src/flnr/_echafaud.py) in which a timed-out child ignores
-- SIGTERM and is killed.
use flnr.Base.{◌≡◌, ◌↔◌, refl, true, false, Option, none, some, [], ◌∷◌}
use flnr.Base.Int.{pos, negsuc}
use flnr.Floats.{PyFloat, finite}
use flnr.Fate.{ProcessFate, timeout, kill}
use flnr.Lifecycle.{
  sigterm, sigkill, running, finished, watching, terminating, confirming, resolved, World, start,
  fate, by_timeout, child_exits, exit_seen, first_wait_returns, grace_expires, confirmation_ends,
  Reach, begun, moved, after_first_wait, after_grace_expired, after_exit_confirmed,
}
use flnr.Lifecycle.Invariant.{Reason, Enforced, Observed}
use flnr.Lifecycle.Outcome.{fate_explained, paused_iff_IsConfirming, IsConfirming}

abbrev limit : Option PyFloat
limit = some (finite (pos 1))

abbrev killed : ProcessFate
killed = fate timeout kill (some (negsuc 8))

abbrev w0 : World
w0 = record {
  returncode = none;
  signals = [];
  fatal_reader_error = false;
  ext_termination_request = false;
  monitor_callbacks_allowed = true;
  process_exit_task = running;
  fatal_reader_error_done = false;
  ext_termination_request_done = false;
  tasks_cancelled = false;
  phase = watching;
}

abbrev w1 : World
w1 = record w0 { signals = sigterm ∷ []; phase = terminating timeout }

abbrev w2 : World
w2 = record w1 {
  signals = sigterm ∷ sigkill ∷ [];
  monitor_callbacks_allowed = false;
  phase = confirming timeout kill;
}

abbrev w3 : World
w3 = record w2 { returncode = some (negsuc 8) }

abbrev w4 : World
w4 = record w3 { process_exit_task = finished }

abbrev w5 : World
w5 = record w4 { monitor_callbacks_allowed = true; tasks_cancelled = true; phase = resolved killed }

run_to_w2 : Reach limit (start false) w2
unfolding start after_first_wait after_grace_expired
run_to_w2 =
    moved (moved begun (first_wait_returns w0 refl (by_timeout refl)))
      (grace_expires w1 timeout refl refl)

run_to_w5 : Reach limit (start false) w5
unfolding after_exit_confirmed
run_to_w5 =
    moved (moved (moved run_to_w2 (child_exits w2 (negsuc 8) refl)) (exit_seen w3 refl refl))
      (confirmation_ends w4 timeout kill refl refl)

fate_explained_example : Reason limit w5 timeout × Enforced w5 timeout kill × Observed w5 killed
fate_explained_example = fate_explained false killed run_to_w5 refl

paused_iff_IsConfirming_example : (w2.monitor_callbacks_allowed ≡ false) ↔ IsConfirming w2.phase
paused_iff_IsConfirming_example = paused_iff_IsConfirming false run_to_w2
