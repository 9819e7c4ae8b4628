-- ===== src/Runner/Supervision.antt =====
-- A whole run under `_RunnerScope` of src/flnr/flnr.py: the fate coroutine, the readers and the
-- environment monitors side by side, and the main coroutine `_run_ex_async` with `close_monitoring`
-- and `report_result`. They share the events of the scope, the list of failures and the fate's task:
-- after each move the shared values are those that the move has left.
pub mod Shared
pub mod Lifecycle
pub mod Parts
pub mod Whole
pub mod Outcome
pub mod Pauses
mod Tests
use flnr.Base.{
  ℕ, suc, ◌≡◌, Bool, true, false, Option, none, some, List, [], ◌∷◌, ◌++◌, map, if◌then◌else◌,
}
use mathlib.Core.Option
use flnr.Base.Text.{Text}
use flnr.Floats.{PyFloat}
use flnr.Fate.{ProcessFate}
use flnr.Monitors.{Monitor, MonitorFailure, OutputStream, PyException}
use flnr.Sink.{Behaviour as SinkBehaviour}
use flnr.Lifecycle.{
  World, Phase, watching, terminating, confirming, resolved, failed, start, Step as LifecycleStep,
  reader_fails,
}
use flnr.Reader.{
  Reader, RelayEnd, RelayPhase, completed, ended, DrainPhase, drained, assertion_failed,
  start_reader, is_over, Step as ReaderStep, monitors_paused, monitors_resumed, drain_is_requested,
  failure_elsewhere,
}
use flnr.EnvMonitor as Environment
use flnr.EnvMonitor.{
  is_own_env, EnvWorld, EnvPhase, EnvStep, FateTask, Behaviour as EnvBehaviour, start_env,
}
use flnr.Runner.Report.{TaskEnd, Report, report_result}
use flnr.Runner.Report as Reporting

-- A reader task: what its monitors do, and what its relay raises where it fails.
pub record StreamTask : Type 0 where
  pub behaviour : SinkBehaviour
  pub read_exception : PyException
  pub reader : Reader

pub record EnvTask : Type 0 where
  pub behaviour : EnvBehaviour
  pub world : EnvWorld

-- Where `_run_ex_async` stands: at the await of the fate, at the gather of `close_monitoring`, or
-- past the report or the exception of the fate's task.
pub data Main : Type 0 where
  awaiting_fate fate_raised : Main
  gathering : ProcessFate → Main
  reported : Report → Main

abbrev pub is_leaving : Main → Bool
is_leaving awaiting_fate = false
is_leaving (gathering fate) = false
is_leaving fate_raised = true
is_leaving (reported r) = true

pub record Run : Type 0 where
  pub lifecycle : World
  pub stream_tasks : List StreamTask
  pub env_tasks : List EnvTask
  pub monitor_failures : List MonitorFailure
  pub drain_requested : Bool
  pub main : Main

-- The fate's task, as the environment monitors see it.
pub fate_task_of : Phase → FateTask
fate_task_of (resolved fate) = Environment.resolved fate
fate_task_of failed = Environment.raised
fate_task_of watching = Environment.running
fate_task_of (terminating d) = Environment.running
fate_task_of (confirming d m) = Environment.running

unfoldable pub share_stream : Run → StreamTask → StreamTask
share_stream w t = record t {
  reader = record (t.reader) {
    monitor_callbacks_allowed = w.lifecycle.monitor_callbacks_allowed;
    drain_requested = w.drain_requested;
    monitoring = record (t.reader.monitoring) { monitor_failures = w.monitor_failures };
  };
}

pub share_env : Run → EnvTask → EnvTask
unfolding fate_task_of
share_env w t = record t {
  world = record (t.world) {
    monitor_callbacks_allowed = w.lifecycle.monitor_callbacks_allowed;
    fate_task = fate_task_of w.lifecycle.phase;
    monitor_failures = w.monitor_failures;
  };
}

-- Every task sees the shared values as they are now.
pub share : Run → Run
unfolding share_stream share_env
share w = record w {
  stream_tasks = map (share_stream w) w.stream_tasks;
  env_tasks = map (share_env w) w.env_tasks;
}

-- `fatal_reader_error.set()`
pub tell_lifecycle : Reader → World → World
tell_lifecycle r l = if r.fatal_reader_error then record l { fatal_reader_error = true } else l

-- The moves that a component makes itself; the others are its view of a move elsewhere. Those of an
-- environment monitor are told apart by `is_own_env`.
abbrev pub is_own_lifecycle : {run : Option PyFloat} {l l' : World} → LifecycleStep run l l' → Bool
is_own_lifecycle (reader_fails w) = false
is_own_lifecycle _ = true

abbrev pub is_own_reader : {raises : SinkBehaviour} {r r' : Reader} → ReaderStep raises r r' → Bool
is_own_reader (monitors_paused w) = false
is_own_reader (monitors_resumed w) = false
is_own_reader (drain_is_requested w) = false
is_own_reader (failure_elsewhere w f) = false
is_own_reader _ = true

-- How a reader task ended: its gather passes on what its two tasks raised, the relay's cancellation
-- by the drain controller included.
pub relay_end : PyException → PyException → RelayEnd → DrainPhase → TaskEnd
relay_end exc assertion completed drained = Reporting.completed
relay_end exc assertion completed assertion_failed = Reporting.failed assertion
relay_end exc assertion completed _ = Reporting.cancelled
relay_end exc assertion RelayEnd.failed d = Reporting.failed exc
relay_end exc assertion RelayEnd.cancelled d = Reporting.cancelled
relay_end exc assertion RelayEnd.unstarted d = Reporting.cancelled

pub stream_end : PyException → PyException → RelayPhase → DrainPhase → Option TaskEnd
unfolding relay_end
stream_end exc assertion (ended how) d =
    if is_over d then some (relay_end exc assertion how d) else none
stream_end exc assertion _ d = none

-- How an environment monitor's task ended; the first exception is that of the fate's task.
pub env_end : PyException → PyException → EnvPhase → Option TaskEnd
env_end fate_exc assertion (Environment.ended (Environment.completed fate)) =
    some Reporting.completed
env_end fate_exc assertion (Environment.ended (Environment.gave_up hook exc)) =
    some Reporting.completed
env_end fate_exc assertion (Environment.ended Environment.fate_raised) =
    some (Reporting.failed fate_exc)
env_end fate_exc assertion (Environment.ended Environment.cancelled) = some Reporting.cancelled
env_end fate_exc assertion (Environment.ended Environment.assertion_failed) =
    some (Reporting.failed assertion)
env_end fate_exc assertion _ = none

-- All ends, where every task is over.
abbrev pub collect : List (Option TaskEnd) → Option (List TaskEnd)
collect [] = some []
collect (none ∷ ends) = none
collect (some e ∷ ends) = Option.map (λ es. e ∷ es) (collect ends)

-- `timeouts.run` and `check` of the arguments; what the fate's coroutine raises where it raises, and
-- an AssertionError.
module _ (run : Option PyFloat) (check : Bool) (fate_exception assertion : PyException) where
  -- the tasks that `report_result` reads
  pub task_ends : Run → Option (List TaskEnd)
  unfolding stream_end env_end
  task_ends w = collect (
      map (λ t. stream_end t.read_exception assertion t.reader.relay t.reader.drain) w.stream_tasks
      ++ map (λ t. env_end fate_exception assertion t.world.phase) w.env_tasks)

  -- One move of a run, until its main coroutine leaves the scope.
  pub data RunStep : Run → Run → Type 0 where
    lifecycle_moves :
        (w : Run) (l : World) (step : LifecycleStep run w.lifecycle l)
        → is_own_lifecycle step ≡ true
        → is_leaving w.main ≡ false
        → RunStep w (share (record w { lifecycle = l }))
    stream_moves :
        (w : Run) (before : List StreamTask) (t : StreamTask) (after : List StreamTask) (r : Reader)
        (step : ReaderStep t.behaviour t.reader r)
        → is_own_reader step ≡ true
        → w.stream_tasks ≡ before ++ t ∷ after
        → is_leaving w.main ≡ false
        → RunStep w (
            share (record w {
              lifecycle = tell_lifecycle r w.lifecycle;
              stream_tasks = before ++ record t { reader = r } ∷ after;
              monitor_failures = r.monitoring.monitor_failures;
            }))
    env_moves :
        (w : Run) (before : List EnvTask) (t : EnvTask) (after : List EnvTask) (v : EnvWorld)
        (step : EnvStep t.behaviour t.world v)
        → is_own_env t.behaviour step ≡ true
        → w.env_tasks ≡ before ++ t ∷ after
        → is_leaving w.main ≡ false
        → RunStep w (
            share (record w {
              env_tasks = before ++ record t { world = v } ∷ after;
              monitor_failures = v.monitor_failures;
            }))
    -- the fate is there: `close_monitoring` asks for the drain
    fate_awaited :
        (w : Run) (fate : ProcessFate)
        → w.main ≡ awaiting_fate
        → w.lifecycle.phase ≡ resolved fate
        → RunStep w (share (record w { drain_requested = true; main = gathering fate }))
    fate_await_raises :
        (w : Run)
        → w.main ≡ awaiting_fate
        → w.lifecycle.phase ≡ failed
        → RunStep w (record w { main = fate_raised })
    -- the gather is over: `report_result`
    reports :
        (w : Run) (fate : ProcessFate) (ends : List TaskEnd)
        → w.main ≡ gathering fate
        → task_ends w ≡ some ends
        → RunStep w (record w {
          main = reported (report_result check ends w.monitor_failures w.lifecycle.returncode fate);
        })

  pub data RunReach (first : Run) : Run → Type 0 where
    run_begun : RunReach first first
    run_moved : {w v : Run} → RunReach first w → RunStep w v → RunReach first v

-- What `_ainit` makes the tasks of.
pub record StreamSetup : Type 0 where
  pub behaviour : SinkBehaviour
  pub read_exception : PyException
  pub monitors : List Monitor
  pub stream : OutputStream

pub record EnvSetup : Type 0 where
  pub behaviour : EnvBehaviour
  pub monitor : Monitor

pub stream_task : StreamSetup → StreamTask
stream_task s = record {
  behaviour = s.behaviour;
  read_exception = s.read_exception;
  reader = start_reader s.monitors s.stream [];
}

pub env_tasks_from : ℕ → ℕ → List Text → List EnvSetup → List EnvTask
env_tasks_from index pid cmd [] = []
env_tasks_from index pid cmd (s ∷ setups) =
    record { behaviour = s.behaviour; world = start_env pid cmd s.monitor index [] }
    ∷ env_tasks_from (suc index) pid cmd setups

-- `_ainit` has returned; a host request may have been made already.
pub start_run : Bool → ℕ → List Text → List StreamSetup → List EnvSetup → Run
unfolding stream_task env_tasks_from
start_run requested pid cmd streams envs = record {
  lifecycle = start requested;
  stream_tasks = map stream_task streams;
  env_tasks = env_tasks_from 0 pid cmd envs;
  monitor_failures = [];
  drain_requested = false;
  main = awaiting_fate;
}
