-- ===== src/EnvMonitor.antt =====
-- `_env_monitor_task` of src/flnr/_observatory.py, cut at its awaits, over `_EnvironmentMonitorHandle`
-- of src/flnr/_monitor_handles.py. Each callback is logged; what it does then, returning or
-- raising, is an unknown function of the log so far.
pub mod Protocol
pub mod Runs
pub mod Failures
mod Tests
use flnr.Base.{ℕ, ◌≡◌, Bool, true, false, Option, none, some, List, [], ◌∷◌, ◌++◌, if◌then◌else◌}
use flnr.Base.Text.{Text}
use flnr.Outcome.{Result, ok, err, assertion_error}
use flnr.Fate.{ProcessFate}
use flnr.Monitors.{Monitor, MonitorHook, on_start, observe, on_end, PyException, MonitorFailure}

pub data EnvCall : Type 0 where
  start_call : ℕ → List Text → EnvCall
  observe_call : ℕ → EnvCall
  end_call : ProcessFate → EnvCall

-- The task of the fate, as far as this task waits for it.
pub data FateTask : Type 0 where
  running raised : FateTask
  resolved : ProcessFate → FateTask

pub data EnvEnd : Type 0 where
  -- after `on_end`, whether or not that raised
  completed : ProcessFate → EnvEnd
  -- `on_start` or `observe` raised
  gave_up : MonitorHook → PyException → EnvEnd
  -- the await of the fate raised, or this task was cancelled
  fate_raised cancelled : EnvEnd
  -- an assertion of the handle failed
  assertion_failed : EnvEnd

-- The await at which the task stands, or its end.
pub data EnvPhase : Type 0 where
  waiting_start watching waiting_observe : EnvPhase
  waiting_end : ProcessFate → EnvPhase
  ended : EnvEnd → EnvPhase

abbrev pub is_ended : EnvPhase → Bool
is_ended (ended how) = true
is_ended waiting_start = false
is_ended watching = false
is_ended waiting_observe = false
is_ended (waiting_end fate) = false

pub record EnvWorld : Type 0 where
  pub pid : ℕ
  pub cmd : List Text
  pub monitor : Monitor
  pub monitor_index : ℕ
  pub is_active : Bool
  pub monitor_failures : List MonitorFailure
  pub calls : List EnvCall
  pub monitor_callbacks_allowed : Bool
  pub fate_task : FateTask
  pub phase : EnvPhase

-- `_record_failure`; an environment monitor has no stream.
abbrev pub failure_of : EnvWorld → MonitorHook → PyException → MonitorFailure
failure_of w hook exc = record {
  monitor = w.monitor;
  hook = hook;
  exception = exc;
  monitor_index = w.monitor_index;
  stream = none;
}

unfoldable pub fail : EnvWorld → MonitorHook → PyException → EnvWorld
fail w hook exc = record w {
  is_active = false;
  monitor_failures = w.monitor_failures ++ failure_of w hook exc ∷ [];
}

abbrev pub Behaviour : Type 0
Behaviour = List EnvCall → Option PyException

-- The task begins with a new handle and waits for the callbacks to be allowed.
unfoldable pub start_env : ℕ → List Text → Monitor → ℕ → List MonitorFailure → EnvWorld
start_env pid cmd monitor index failures = record {
  pid = pid;
  cmd = cmd;
  monitor = monitor;
  monitor_index = index;
  is_active = true;
  monitor_failures = failures;
  calls = [];
  monitor_callbacks_allowed = true;
  fate_task = running;
  phase = waiting_start;
}

module _ (raises : Behaviour) where
  -- A callback of the handle, between its assertion and its `except`; `next` is where the task
  -- stands after it.
  unfoldable pub call :
      MonitorHook → EnvCall → (Option PyException → EnvPhase) → EnvWorld → EnvWorld
  unfolding fail
  call hook c next w =
      if w.is_active
      then (let w' = record w { calls = w.calls ++ c ∷ [] } in
          elim (raises w'.calls) [
            | none ↦ record w' { phase = next none }
            | some exc ↦ record (fail w' hook exc) { phase = next (some exc) }
          ])
      else record w { phase = ended assertion_failed }

  -- where the task goes on after `on_start` or `observe`
  abbrev pub go_on : MonitorHook → Option PyException → EnvPhase
  go_on hook none = watching
  go_on hook (some exc) = ended (gave_up hook exc)

  unfoldable pub after_start_allowed : EnvWorld → EnvWorld
  unfolding call
  after_start_allowed w = call on_start (start_call w.pid w.cmd) (go_on on_start) w

  pub after_observe_allowed : EnvWorld → EnvWorld
  unfolding call
  after_observe_allowed w = call observe (observe_call w.pid) (go_on observe) w

  unfoldable pub after_end_allowed : ProcessFate → EnvWorld → EnvWorld
  unfolding call
  after_end_allowed fate w = call on_end (end_call fate) (λ failed. ended (completed fate)) w

  -- After the wait for the fate or the period.
  unfoldable pub after_watch : EnvWorld → EnvWorld
  after_watch w = elim w.fate_task [
    | running ↦ record w { phase = waiting_observe }
    | raised ↦ record w { phase = ended fate_raised }
    | resolved fate ↦ record w { phase = waiting_end fate }
  ]

  pub data EnvStep : EnvWorld → EnvWorld → Type 0 where
    monitors_paused : (w : EnvWorld) → EnvStep w (record w { monitor_callbacks_allowed = false })
    monitors_resumed : (w : EnvWorld) → EnvStep w (record w { monitor_callbacks_allowed = true })
    fate_ends :
        (w : EnvWorld) (t : FateTask)
        → w.fate_task ≡ running
        → EnvStep w (record w { fate_task = t })
    failure_elsewhere :
        (w : EnvWorld) (f : MonitorFailure)
        → EnvStep w (record w { monitor_failures = w.monitor_failures ++ f ∷ [] })
    start_allowed :
        (w : EnvWorld)
        → w.phase ≡ waiting_start
        → w.monitor_callbacks_allowed ≡ true
        → EnvStep w (after_start_allowed w)
    -- the fate is there, or the period has passed
    watch_ends : (w : EnvWorld) → w.phase ≡ watching → EnvStep w (after_watch w)
    observe_allowed :
        (w : EnvWorld)
        → w.phase ≡ waiting_observe
        → w.monitor_callbacks_allowed ≡ true
        → EnvStep w (after_observe_allowed w)
    end_allowed :
        (w : EnvWorld) (fate : ProcessFate)
        → w.phase ≡ waiting_end fate
        → w.monitor_callbacks_allowed ≡ true
        → EnvStep w (after_end_allowed fate w)
    task_cancelled :
        (w : EnvWorld) → is_ended w.phase ≡ false → EnvStep w (record w { phase = ended cancelled })

  -- the moves of the task itself; the others come from the rest of the run
  abbrev pub is_own_env : {w v : EnvWorld} → EnvStep w v → Bool
  is_own_env (monitors_paused w) = false
  is_own_env (monitors_resumed w) = false
  is_own_env (fate_ends w t e) = false
  is_own_env (failure_elsewhere w f) = false
  is_own_env _ = true

  pub data EnvReach (first : EnvWorld) : EnvWorld → Type 0 where
    begun : EnvReach first first
    moved : {w v : EnvWorld} → EnvReach first w → EnvStep w v → EnvReach first v
