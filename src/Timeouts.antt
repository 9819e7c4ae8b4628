-- ===== src/Timeouts.antt =====
-- src/flnr/timeouts.py, the period check of src/flnr/monitors.py and
-- `_effective_death_confirmation_timeout` of src/flnr/_process_utils.py.
pub mod Validity
mod Tests
use flnr.Base.{
  String, ◌≡◌, Bool, true, false, not, ◌||◌, Option, none, some, if◌then◌else◌, is_some,
}
use flnr.Outcome.{Result, ok, err, value_error, raise_if, ◌>>=◌, ◌>>◌}
use flnr.Floats.{PyFloat, is_finite, le_zero, truthy, float_max, four_poll_periods}

-- `_check_timeout_value`
pub check_timeout_value : PyFloat → String → Result (Unit {0})
unfolding is_finite le_zero
check_timeout_value value err_msg =
    raise_if (not (is_finite value) || le_zero value) (value_error err_msg)

-- `_check_optional_timeout_value`
pub check_optional_timeout_value : Option PyFloat → String → Result (Unit {0})
unfolding check_timeout_value
check_optional_timeout_value none err_msg = ok tt
check_optional_timeout_value (some value) err_msg = check_timeout_value value err_msg

-- The dataclass; `kill` and `run` may be `None`.
pub record ExecutionTimeouts : Type 0 where
  pub run : Option PyFloat
  pub terminate : PyFloat
  pub output_drain : PyFloat
  pub kill : Option PyFloat

-- `__post_init__`
pub post_init : ExecutionTimeouts → Result (Unit {0})
post_init t = do
  check_optional_timeout_value t.run "run timeout must be either None or > 0"
  check_timeout_value t.terminate "terminate timeout must be > 0"
  check_timeout_value t.output_drain "output_drain timeout must be > 0"
  check_optional_timeout_value t.kill "kill timeout must be either None or > 0"

-- The generated constructor: the fields are set, then checked.
pub execution_timeouts :
    Option PyFloat → PyFloat → PyFloat → Option PyFloat → Result ExecutionTimeouts
unfolding post_init
execution_timeouts run terminate output_drain kill =
    let t : ExecutionTimeouts = record {
      run = run;
      terminate = terminate;
      output_drain = output_drain;
      kill = kill;
    } in
    do post_init t; ok t

-- `_check_period_value` of `EnvironmentMonitor.__init__`
pub check_period_value : PyFloat → String → Result (Unit {0})
unfolding is_finite le_zero
check_period_value value err_msg =
    raise_if (not (is_finite value) || le_zero value) (value_error err_msg)

-- `requested_kill_timeout or requested_terminate_timeout`
pub kill_or_terminate : PyFloat → Option PyFloat → PyFloat
unfolding truthy
kill_or_terminate terminate none = terminate
kill_or_terminate terminate (some kill) = if truthy kill then kill else terminate

pub effective_death_confirmation_timeout : PyFloat → Option PyFloat → PyFloat
effective_death_confirmation_timeout terminate kill =
    float_max (kill_or_terminate terminate kill) four_poll_periods
