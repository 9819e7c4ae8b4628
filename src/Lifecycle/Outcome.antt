-- ===== src/Lifecycle/Outcome.antt =====
-- What a fate resolved by `_resolve_process_fate` (src/flnr/_echafaud.py) says of the run.
use flnr.Base.{◌≡◌, ◌⊎◌, ◌↔◌, subst, Bool, true, false, Option, is_some, arith}
use flnr.Floats.{PyFloat}
use flnr.Fate.{ProcessFate}
use flnr.Lifecycle.{raised, Phase, watching, confirming, resolved, failed, World, start, Reach}
use flnr.Lifecycle.Invariant.{Reason, Enforced, Observed, SoundAt, Reach-IsSound}

-- However the child, the events and the timers interleave, a resolved fate is explained: its
-- decision has its cause in the run, its method goes with that decision and with the signals that
-- were sent, and its return code is that of the child, or none only after an intervention.
pub fate_explained :
    {run : Option PyFloat} (requested : Bool) {w : World} (f : ProcessFate)
    → Reach run (start requested) w
    → w.phase ≡ resolved f
    → Reason run w f.termination_decision
      × Enforced w f.termination_decision f.termination_method
      × Observed w f
fate_explained {run} requested {w = w} f r e =
    let (_, _, enforced, reason, observed) =
      subst (SoundAt run w) e (Reach-IsSound requested r).at_phase in
    (reason, enforced, observed)

abbrev pub IsConfirming : Phase → Type 0
IsConfirming (confirming d m) = Unit
IsConfirming _ = ⊥

pub paused_at :
    (run : Option PyFloat) (w : World) (p : Phase)
    → SoundAt run w p
    → (w.monitor_callbacks_allowed ≡ false) ↔ IsConfirming p
paused_at run w watching h = ground arith
paused_at run w _ h = ground arith

-- Monitor callbacks are paused exactly while a killed, terminated or ended child is being
-- confirmed dead: never before, and never after the fate is known or an exception left.
pub paused_iff_IsConfirming :
    {run : Option PyFloat} (requested : Bool) {w : World}
    → Reach run (start requested) w
    → (w.monitor_callbacks_allowed ≡ false) ↔ IsConfirming w.phase
paused_iff_IsConfirming {run} requested {w = w} r =
    paused_at run w w.phase (Reach-IsSound requested r).at_phase

-- An exception leaves the coroutine only if the exit task raised, or the child was gone already
-- when `terminate()` was called; no assertion fails. The ledger's tasks are cancelled.
pub failure_explained :
    {run : Option PyFloat} (requested : Bool) {w : World}
    → Reach run (start requested) w
    → w.phase ≡ failed
    → (w.tasks_cancelled ≡ true) × ((w.process_exit_task ≡ raised) ⊎ (is_some w.returncode ≡ true))
failure_explained {run} requested {w = w} r e =
    let (_, cancelled, why) = subst (SoundAt run w) e (Reach-IsSound requested r).at_phase in
    (cancelled, why)
