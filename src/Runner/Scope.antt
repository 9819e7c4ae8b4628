-- ===== src/Runner/Scope.antt =====
-- The resources of a run: `_RunnerScope` of src/flnr/flnr.py from `__aenter__` to `__aexit__`, with
-- `_TaskLedger` of src/flnr/_task_ledger.py, `_run_ex_async` and `run_ex`. What the calls of the
-- operating system and of asyncio raise is given by `Calls`.
pub mod Release
pub mod Entry
mod Tests
use flnr.Base.{
  ℕ, zero, suc, Bool, true, false, Option, none, some, List, [], ◌∷◌, ◌++◌, map, if◌then◌else◌,
}
use flnr.Outcome.{PyError, Result, ok, err, type_error, runtime_error, raise_if, ◌>>=◌, ◌>>◌}
use flnr.Fate.{ProcessFate}
use flnr.Runner.Prepare.{Surroundings, Arguments, RunnerArgs, prepare_runner_args}

-- What is raised: an `Exception`, or one that is not (`CancelledError`, `KeyboardInterrupt`).
pub data Raised : Type 0 where
  an_exception : PyError → Raised
  base_exception : Raised

pub data Binding : Type 0 where
  not_attached attached deactivated : Binding

-- The child, as far as the scope knows it; `killed` is after `_attempt_to_kill`.
pub data Child : Type 0 where
  not_started started killed : Child

pub data ScopeTask : Type 0 where
  reader_stdout reader_stderr process_fate : ScopeTask
  env_monitor : ℕ → ScopeTask

pub data TaskState : Type 0 where
  live task_cancelled : TaskState

pub record Scope : Type 0 where
  pub host_termination_binding : Binding
  pub process : Child
  -- the ledger
  pub tasks : List (ScopeTask × TaskState)

-- What the calls raise, which streams of the process are pipes, and the number of environment
-- monitors.
pub record Calls : Type 0 where
  pub attach : Option Raised
  pub start_process : Option Raised
  pub deactivate : Option Raised
  pub has_stdout : Bool
  pub has_stderr : Bool
  pub environment_monitors : ℕ

-- `__init__`
pub new_scope : Scope
new_scope = record { host_termination_binding = not_attached; process = not_started; tasks = [] }

-- `_TaskLedger.create_task`
abbrev pub create_task : ScopeTask → Scope → Scope
create_task t s = record s { tasks = s.tasks ++ (t, live) ∷ [] }

pub create_env_tasks : ℕ → ℕ → Scope → Scope
create_env_tasks i zero s = s
create_env_tasks i (suc n) s = create_env_tasks (suc i) n (create_task (env_monitor i) s)

-- `_ainit` once the process runs
pub create_tasks : Calls → Scope → Scope
unfolding create_env_tasks
create_tasks c s =
    let s₁ = if c.has_stdout then create_task reader_stdout s else s in
    let s₂ = if c.has_stderr then create_task reader_stderr s₁ else s₁ in
    create_env_tasks 0 c.environment_monitors (create_task process_fate s₂)

-- `_ainit`: the scope that it leaves, and what it raised.
pub ainit : Calls → Scope → Scope × Option Raised
unfolding create_tasks
ainit c s = elim c.attach [
  | some e ↦ (s, some e)
  | none ↦
      let s₁ = record s { host_termination_binding = attached } in
      elim c.start_process [
        | some e ↦ (s₁, some e)
        | none ↦ (create_tasks c (record s₁ { process = started }), none)
      ]
]

-- `_TaskLedger.cancel_all`
pub cancel_all : List (ScopeTask × TaskState) → List (ScopeTask × TaskState)
cancel_all [] = []
cancel_all ((t, state) ∷ tasks) = (t, task_cancelled) ∷ cancel_all tasks

abbrev pub kill_child : Child → Child
kill_child not_started = not_started
kill_child started = killed
kill_child killed = killed

-- the `finally` of `_acleanup`
pub release : Scope → Scope
unfolding cancel_all
release s = record s { process = kill_child s.process; tasks = cancel_all s.tasks }

-- `_acleanup`: the binding is deactivated, whatever that raises, and then the rest is released.
pub acleanup : Calls → Scope → Scope × Option Raised
unfolding release
acleanup c s = elim s.host_termination_binding [
  | attached ↦ (release (record s { host_termination_binding = deactivated }), c.deactivate)
  | _ ↦ (release s, none)
]

-- an exception of a cleanup replaces the one that it handles
abbrev pub instead : Option Raised → Raised → Raised
instead none e = e
instead (some e') e = e'

-- `__aenter__`: only an `Exception` leads to the cleanup.
pub aenter : Calls → Scope → Scope × Option Raised
unfolding ainit acleanup
aenter c s =
    let (s', failed) = ainit c s in
    elim failed [
      | none ↦ (s', none)
      | some base_exception ↦ (s', some base_exception)
      | some (an_exception e) ↦
          let (s'', again) = acleanup c s' in (s'', some (instead again (an_exception e)))
    ]

pub data RunEnd : Type 0 where
  returned : ProcessFate → RunEnd
  raised : Raised → RunEnd

abbrev pub end_with : RunEnd → Option Raised → RunEnd
end_with (returned fate) none = returned fate
end_with (returned fate) (some e) = raised e
end_with (raised e) again = raised (instead again e)

-- `_run_ex_async`; `body` is how the block under `async with` ends.
pub run_ex_async : Calls → RunEnd → Scope × RunEnd
unfolding aenter acleanup new_scope
run_ex_async c body =
    let (s, failed) = aenter c new_scope in
    elim failed [
      | some e ↦ (s, raised e)
      | none ↦ let (s', again) = acleanup c s in (s', end_with body again)
    ]

-- `tracer`: an object with the tracer's method and what that raises, or some other object.
pub data Tracer : Type 0 where
  no_tracer other_object : Tracer
  tracing : Option PyError → Tracer

-- `_ensure_no_running_loop`
pub ensure_no_running_loop : Bool → Result (Unit {0})
ensure_no_running_loop has_loop =
    raise_if has_loop (runtime_error "run_ex() cannot be called from an async context")

-- `_trace_command_if_requested`
pub trace_command_if_requested : Tracer → Result (Unit {0})
trace_command_if_requested no_tracer = ok tt
trace_command_if_requested other_object =
    err (type_error "tracer must be None or implement flnr.CommandTracerProtocol")
trace_command_if_requested (tracing none) = ok tt
trace_command_if_requested (tracing (some e)) = err e

-- `run_ex`: an exception before the run, or the run with its arguments.
pub run_ex :
    Bool
    → Surroundings
    → Arguments
    → Tracer
    → (RunnerArgs → Calls)
    → RunEnd
    → Result (RunnerArgs × (Scope × RunEnd))
unfolding ensure_no_running_loop trace_command_if_requested run_ex_async
run_ex has_loop around a tracer calls body = do
  ensure_no_running_loop has_loop
  args ← prepare_runner_args around a
  trace_command_if_requested tracer
  ok (args, run_ex_async (calls args) body)
