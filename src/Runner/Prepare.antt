-- ===== src/Runner/Prepare.antt =====
-- `_prepare_runner_args` of src/flnr/flnr.py, with `_is_host_termination_object` and
-- `_validate_host_termination_support` of src/flnr/host_control.py and the marker of
-- src/flnr/stdio.py. What Python reads from its surroundings (`sys.platform`, `os.environ`, the
-- current thread) is the record `Surroundings`.
pub mod Accepted
mod Tests
use Prim.Native.String.{◌++◌}
use text.Mathlib.Text.{◌==◌ as string_eq}
use flnr.Base.{
  ℕ, String, ◌*◌, ◌^◌, Bool, true, false, not, ◌&&◌, Option, none, some, List, [], ◌∷◌,
  if◌then◌else◌,
}
use flnr.Base.Int.{pos}
use flnr.Base.Text.{Text}
use flnr.Outcome.{Result, ok, err, value_error, type_error, runtime_error, raise_if, ◌>>=◌, ◌>>◌}
use flnr.PyValues.{Item, freeze}
use flnr.Floats.{PyFloat, finite}
use flnr.Timeouts.{ExecutionTimeouts}
use flnr.Monitors.{Monitor}
use flnr.Routing.{
  StreamHandling, OutputRoute, OutputStreamTargets, resolve_output_stream_route,
  resolve_output_stream_targets,
}
use flnr.Tracing.EnvListing.{Env}

pub record Surroundings : Type 0 where
  pub platform : String
  pub environ : Env
  pub in_main_thread : Bool

-- `cmd`: a text or bytes, empty or not, or a sequence of arguments as `str` gives them
pub data Command : Type 0 where
  string_like : Text → Command
  arguments : List Text → Command

-- `host_termination`; a request object has an identity.
pub data HostTermination : Type 0 where
  disabled host_signals : HostTermination
  request : ℕ → HostTermination
  unexpected : String → HostTermination

pub data Stdin : Type 0 where
  devnull inherit_stdin unexpected : Stdin

pub record EnvironmentMonitor : Type 0 where
  pub type_name : String
  pub period : PyFloat

-- The keyword arguments of `run_ex` that are checked or frozen.
pub record Arguments : Type 0 where
  pub cmd : Command
  pub env : Option Env
  pub cwd : Option Text
  pub merge_std_streams : Option Bool
  pub timeouts : Option ExecutionTimeouts
  pub stdout_monitors : StreamHandling Monitor
  pub stderr_monitors : StreamHandling Monitor
  pub environment_monitors : Option (List (Item EnvironmentMonitor))
  pub stdin : Stdin
  pub check : Bool
  pub host_termination : HostTermination

pub record RunnerArgs : Type 0 where
  pub cmd : List Text
  pub cwd : Option Text
  pub env : Env
  pub stdout_route : OutputRoute Monitor
  pub stderr_route : OutputRoute Monitor
  pub output_stream_targets : OutputStreamTargets
  pub stdin : Stdin
  pub environment_monitors : List EnvironmentMonitor
  pub check : Bool
  pub timeouts : ExecutionTimeouts
  pub host_termination : HostTermination

-- `not cmd`
abbrev pub is_empty : Command → Bool
is_empty (string_like []) = true
is_empty (string_like (c ∷ s)) = false
is_empty (arguments []) = true
is_empty (arguments (arg ∷ args)) = false

abbrev pub is_string_like : Command → Bool
is_string_like (string_like s) = true
is_string_like (arguments args) = false

abbrev pub items : Command → List Text
items (string_like s) = []
items (arguments args) = args

-- `_is_host_termination_object`, negated, with what the message prints
abbrev pub check_host_termination : HostTermination → Result (Unit {0})
check_host_termination (HostTermination.unexpected printed) =
    err (type_error ("unexpected type for host_termination object " ++ printed))
check_host_termination disabled = ok tt
check_host_termination host_signals = ok tt
check_host_termination (request id) = ok tt

abbrev pub is_host_signals : HostTermination → Bool
is_host_signals host_signals = true
is_host_signals disabled = false
is_host_signals (request id) = false
is_host_signals (HostTermination.unexpected printed) = false

-- `_validate_host_termination_support`
unfoldable pub validate_host_termination_support : HostTermination → String → Result (Unit {0})
validate_host_termination_support control platform =
    raise_if (string_eq platform "win32" && is_host_signals control)
      (runtime_error "HostTerminationRequest.HOST_SIGNALS is not supported on Windows")

abbrev pub check_stdin : Stdin → Result (Unit {0})
check_stdin Stdin.unexpected = err (type_error "stdin must be None or flnr.INHERIT_STDIN")
check_stdin devnull = ok tt
check_stdin inherit_stdin = ok tt

-- `_freeze_environment_monitors`
unfoldable pub freeze_environment_monitors :
    Option (List (Item EnvironmentMonitor)) → Result (List EnvironmentMonitor)
freeze_environment_monitors none = ok []
freeze_environment_monitors (some values) =
    freeze "environment_monitors must contain only EnvironmentMonitor instances, got " values

-- `ExecutionTimeouts()`: 5 and 1 seconds, in units of 2^-1074
unfoldable pub default_timeouts : ExecutionTimeouts
default_timeouts = record {
  run = none;
  terminate = finite (pos (5 * 2 ^ 1074));
  output_drain = finite (pos (2 ^ 1074));
  kill = none;
}

abbrev pub or_default {ℓ} : {A : Type ℓ} → Option A → A → A
or_default none d = d
or_default (some a) d = a

-- The checks that stand before the routes, in order.
unfoldable pub check_arguments : Surroundings → Arguments → Result (Unit {0})
unfolding validate_host_termination_support
check_arguments around a = do
  raise_if (is_empty a.cmd) (value_error "cmd must not be empty")
  raise_if (is_string_like a.cmd)
      (type_error "cmd must be a sequence of argument items, not a string-like object")
  check_host_termination a.host_termination
  validate_host_termination_support a.host_termination around.platform
  raise_if (is_host_signals a.host_termination && not around.in_main_thread) (
      runtime_error
        "automatic termination on host signals is supported only for main Python thread")
  check_stdin a.stdin

-- `_prepare_runner_args`
unfoldable pub prepare_runner_args : Surroundings → Arguments → Result RunnerArgs
prepare_runner_args around a = do
  check_arguments around a
  stdout_route ← resolve_output_stream_route a.stdout_monitors
  stderr_route ← resolve_output_stream_route a.stderr_monitors
  targets ←
      resolve_output_stream_targets around.platform a.merge_std_streams stdout_route stderr_route
  environment_monitors ← freeze_environment_monitors a.environment_monitors
  ok (record {
    cmd = items a.cmd;
    cwd = a.cwd;
    env = or_default a.env around.environ;
    stdout_route = stdout_route;
    stderr_route = stderr_route;
    output_stream_targets = targets;
    stdin = a.stdin;
    environment_monitors = environment_monitors;
    check = a.check;
    timeouts = or_default a.timeouts default_timeouts;
    host_termination = a.host_termination;
  })
