-- ===== src/Runner/Scope/Tests.antt =====
-- Runs and instances for the scope of a run of src/flnr/flnr.py.
use flnr.Base.{◌≡◌, ◌↔◌, refl, true, false, none, some, [], ◌∷◌}
use flnr.Base.Int.{pos}
use flnr.Base.Text.{codes}
use flnr.Outcome.{os_error}
use flnr.Fate.{ProcessFate, no_intervention, method_none}
use flnr.Routing.{unhandled, devnull}
use flnr.Runner.Prepare.{
  Surroundings, arguments, disabled, Stdin, Arguments, RunnerArgs, default_timeouts,
}
use flnr.Runner.Scope.{
  an_exception, base_exception, attached, deactivated, not_started, killed, Calls, returned, raised,
  new_scope, create_tasks, create_env_tasks, ainit, cancel_all, release, acleanup, aenter,
  run_ex_async, reader_stdout, process_fate, env_monitor, task_cancelled,
}
use flnr.Runner.Scope.Release.{IsReleased, is_interrupted, run_ex_async-IsReleased}

abbrev quiet_calls : Calls
quiet_calls = record {
  attach = none;
  start_process = none;
  deactivate = none;
  has_stdout = true;
  has_stderr = false;
  environment_monitors = 1;
}

-- The detachment raises; the process could not be started.
abbrev failing_calls : Calls
failing_calls = record quiet_calls {
  start_process = some (an_exception (os_error "no such file"));
  deactivate = some (an_exception (os_error "bad descriptor"));
}

-- A cancellation while the process is being started.
abbrev interrupted_calls : Calls
interrupted_calls = record quiet_calls { start_process = some base_exception }

abbrev exited : ProcessFate
exited = record {
  termination_decision = no_intervention;
  termination_method = method_none;
  returncode = some (pos 0);
}

full_run : run_ex_async quiet_calls (returned exited) ≡ (
  record {
    host_termination_binding = deactivated;
    process = killed;
    tasks =
        (reader_stdout, task_cancelled)
        ∷ (process_fate, task_cancelled)
        ∷ (env_monitor 0, task_cancelled)
        ∷ [];
  },
  returned exited,
)
unfolding run_ex_async aenter ainit new_scope create_tasks create_env_tasks acleanup release
    cancel_all
full_run = refl

-- The exception of the cleanup hides that of the start.
failed_start : run_ex_async failing_calls (returned exited) ≡ (
  record { host_termination_binding = deactivated; process = not_started; tasks = [] },
  raised (an_exception (os_error "bad descriptor")),
)
unfolding run_ex_async aenter ainit new_scope acleanup release cancel_all
failed_start = refl

interrupted_start : run_ex_async interrupted_calls (returned exited) ≡ (
  record { host_termination_binding = attached; process = not_started; tasks = [] },
  raised base_exception,
)
unfolding run_ex_async aenter ainit new_scope
interrupted_start = refl

run_ex_async-IsReleased_example :
    IsReleased (run_ex_async failing_calls (returned exited)).0
    ↔ (is_interrupted failing_calls ≡ false)
run_ex_async-IsReleased_example = run_ex_async-IsReleased failing_calls (returned exited)

abbrev linux : Surroundings
linux = record { platform = "linux"; environ = []; in_main_thread = false }

abbrev make : Arguments
make = record {
  cmd = arguments (codes "make" ∷ []);
  env = none;
  cwd = none;
  merge_std_streams = none;
  timeouts = none;
  stdout_monitors = unhandled;
  stderr_monitors = unhandled;
  environment_monitors = none;
  stdin = Stdin.devnull;
  check = true;
  host_termination = disabled;
}

abbrev prepared : RunnerArgs
prepared = record {
  cmd = codes "make" ∷ [];
  cwd = none;
  env = [];
  stdout_route = record { monitors = []; tie_to_parent = false };
  stderr_route = record { monitors = []; tie_to_parent = false };
  output_stream_targets = record { stdout = some devnull; stderr = some devnull };
  stdin = Stdin.devnull;
  environment_monitors = [];
  check = true;
  timeouts = default_timeouts;
  host_termination = disabled;
}
