-- ===== src/Timeouts/Tests.antt =====
-- Instances for src/flnr/timeouts.py and src/flnr/_process_utils.py.
use flnr.Base.{◌≡◌, ◌↔◌, refl, none, some, arith, ◌*◌, ◌^◌}
use flnr.Base.Int.{pos, negsuc}
use flnr.Outcome.{ok}
use flnr.Floats.{PyFloat, nan, finite, float_max, four_poll_periods}
use flnr.Timeouts.{
  ExecutionTimeouts, execution_timeouts, kill_or_terminate, effective_death_confirmation_timeout,
}
use flnr.Timeouts.Validity.{AreDurations, execution_timeouts_iff}

-- Five seconds, in units of 2^-1074.
abbrev five_seconds : PyFloat
five_seconds = finite (pos (5 * 2 ^ 1074))

abbrev one_second : PyFloat
one_second = finite (pos (2 ^ 1074))

-- `ExecutionTimeouts()`
abbrev defaults : ExecutionTimeouts
defaults = record { run = none; terminate = five_seconds; output_drain = one_second; kill = none }

-- The smallest positive double as a kill timeout.
abbrev hasty : ExecutionTimeouts
hasty = record {
  run = some one_second;
  terminate = five_seconds;
  output_drain = one_second;
  kill = some (finite (pos 1));
}

defaults-AreDurations : AreDurations defaults
defaults-AreDurations = record {
  run = tt;
  terminate = omega arith;
  output_drain = omega arith;
  kill = tt;
}

hasty-AreDurations : AreDurations hasty
hasty-AreDurations = record {
  run = omega arith;
  terminate = omega arith;
  output_drain = omega arith;
  kill = omega arith;
}

execution_timeouts-defaults : execution_timeouts none five_seconds one_second none ≡ ok defaults
execution_timeouts-defaults = (execution_timeouts_iff defaults).1 defaults-AreDurations

hasty_wait :
    effective_death_confirmation_timeout five_seconds (some (finite (pos 1))) ≡ four_poll_periods
unfolding effective_death_confirmation_timeout kill_or_terminate float_max four_poll_periods
hasty_wait = refl

execution_timeouts_iff_example :
    (execution_timeouts none five_seconds one_second none ≡ ok defaults) ↔ AreDurations defaults
execution_timeouts_iff_example = execution_timeouts_iff defaults

-- The run timeout is not a number, and the kill timeout is negative: the first is reported.
abbrev wrong : ExecutionTimeouts
wrong = record {
  run = some nan;
  terminate = five_seconds;
  output_drain = one_second;
  kill = some (finite (negsuc 0));
}
