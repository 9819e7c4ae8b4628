-- ===== src/Runner/Supervision/Shared.antt =====
-- What the tasks of a run know stays true when the shared values of src/flnr/flnr.py change: the
-- pauses, the drain request, the fate's task, and the list of failures, which only grows.
use flnr.Base.{◌≡◌, ◌⊎◌, sym, ◌∙◌, subst, Bool, List, [], ◌∷◌, ◌++◌, inl, inr}
use flnr.Monitors.{MonitorFailure}
use flnr.Reader.Invariant.{IsSound}
use flnr.Reader.Runs.{elsewhere}
use flnr.EnvMonitor.{
  EnvWorld, EnvPhase, waiting_start, watching, waiting_observe, waiting_end, ended, completed,
  gave_up, fate_raised, cancelled, assertion_failed, FateTask, running, failure_of,
}
use flnr.EnvMonitor.Protocol.{InStep, Grounded, Holds}
use flnr.Runner.Supervision.{Run, StreamTask, EnvTask, share_stream, share_env, fate_task_of}

pub share_stream-IsSound :
    (w : Run) (t : StreamTask) → IsSound t.reader → IsSound (share_stream w t).reader
unfolding share_stream
share_stream-IsSound w t s =
    elsewhere t.behaviour t.reader s w.lifecycle.monitor_callbacks_allowed w.drain_requested
      t.reader.relay_cancelled t.reader.drain_cancelled t.reader.drain w.monitor_failures s.asserted

Holds-more : (f : MonitorFailure) (fs new : List MonitorFailure) → Holds f fs → Holds f (fs ++ new)
Holds-more f [] new h = absurd h
Holds-more f (g ∷ fs) new (inl e) = inl e
Holds-more f (g ∷ fs) new (inr h) = inr (Holds-more f fs new h)

-- The fate's task may end while it runs, and the failures may grow.
shared-Grounded :
    (p : EnvPhase) (v : EnvWorld) (allowed : Bool) (t : FateTask) (new : List MonitorFailure)
    → (v.fate_task ≡ running) ⊎ (t ≡ v.fate_task)
    → Grounded p v
    → Grounded p (record v {
      monitor_callbacks_allowed = allowed;
      fate_task = t;
      monitor_failures = v.monitor_failures ++ new;
    })
shared-Grounded waiting_start v allowed t new c g = tt
shared-Grounded watching v allowed t new c g = tt
shared-Grounded waiting_observe v allowed t new c g = tt
shared-Grounded (waiting_end fate) v allowed t new (inl e) g = cc
shared-Grounded (waiting_end fate) v allowed t new (inr e) g = e ∙ g
shared-Grounded (ended (completed fate)) v allowed t new (inl e) g = cc
shared-Grounded (ended (completed fate)) v allowed t new (inr e) g = e ∙ g
shared-Grounded (ended (gave_up hook exc)) v allowed t new c g =
    Holds-more (failure_of v hook exc) v.monitor_failures new g
shared-Grounded (ended fate_raised) v allowed t new (inl e) g = cc
shared-Grounded (ended fate_raised) v allowed t new (inr e) g = e ∙ g
shared-Grounded (ended cancelled) v allowed t new c g = tt
shared-Grounded (ended assertion_failed) v allowed t new c g = tt

pub share_env-InStep :
    (w : Run) (t : EnvTask)
    → (t.world.fate_task ≡ running) ⊎ (fate_task_of w.lifecycle.phase ≡ t.world.fate_task)
    → (new : List MonitorFailure) → w.monitor_failures ≡ t.world.monitor_failures ++ new
    → InStep t.world
    → InStep (share_env w t).world
unfolding share_env
share_env-InStep w t c new e s =
    subst
      (λ fs. InStep (record (t.world) {
        monitor_callbacks_allowed = w.lifecycle.monitor_callbacks_allowed;
        fate_task = fate_task_of w.lifecycle.phase;
        monitor_failures = fs;
      }))
      (sym e)
      (record {
        protocol = s.protocol;
        grounded =
            shared-Grounded t.world.phase t.world w.lifecycle.monitor_callbacks_allowed
              (fate_task_of w.lifecycle.phase) new c s.grounded;
        active = s.active;
      })
