-- ===== src/Runner/Prepare/Tests.antt =====
-- Runs and instances for `_prepare_runner_args` of src/flnr/flnr.py.
use flnr.Base.{◌≡◌, ◌↔◌, refl, true, false, none, some, [], ◌∷◌}
use flnr.Base.Text.{codes}
use flnr.Outcome.{ok, err, runtime_error}
use flnr.PyValues.{instance_of}
use flnr.Routing.{bind_to_parent, monitored, pipe}
use flnr.Runner.Prepare.{
  Surroundings, arguments, host_signals, devnull, Arguments, RunnerArgs, default_timeouts,
  check_arguments, validate_host_termination_support, prepare_runner_args,
}
use flnr.Runner.Prepare.Accepted.{IsRunnable, IsSupported, IsStdin, check_arguments_iff}

abbrev linux : Surroundings
linux = record {
  platform = "linux";
  environ = (codes "HOME", codes "/root") ∷ [];
  in_main_thread = true;
}

abbrev windows : Surroundings
windows = record { platform = "win32"; environ = []; in_main_thread = true }

abbrev make : Arguments
make = record {
  cmd = arguments (codes "make" ∷ codes "-j" ∷ []);
  env = none;
  cwd = none;
  merge_std_streams = none;
  timeouts = none;
  stdout_monitors = monitored (instance_of (record { type_name = "Tee" }) ∷ []);
  stderr_monitors = bind_to_parent;
  environment_monitors = none;
  stdin = devnull;
  check = true;
  host_termination = host_signals;
}

abbrev prepared : RunnerArgs
prepared = record {
  cmd = codes "make" ∷ codes "-j" ∷ [];
  cwd = none;
  env = (codes "HOME", codes "/root") ∷ [];
  stdout_route = record { monitors = record { type_name = "Tee" } ∷ []; tie_to_parent = false };
  stderr_route = record { monitors = []; tie_to_parent = true };
  output_stream_targets = record { stdout = some pipe; stderr = none };
  stdin = devnull;
  environment_monitors = [];
  check = true;
  timeouts = default_timeouts;
  host_termination = host_signals;
}

make-windows :
    prepare_runner_args windows make
    ≡ err (runtime_error "HostTerminationRequest.HOST_SIGNALS is not supported on Windows")
unfolding prepare_runner_args check_arguments validate_host_termination_support
make-windows = refl

check_arguments_iff_example :
    (check_arguments windows make ≡ ok tt)
    ↔ (IsRunnable make.cmd × IsSupported windows make.host_termination × IsStdin make.stdin)
check_arguments_iff_example = check_arguments_iff windows make
