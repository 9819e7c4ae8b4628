-- ===== src/Runner/Report.antt =====
-- `_RunnerScope.report_result` of src/flnr/flnr.py: what a finished run returns or raises.
pub mod Priority
mod Tests
use flnr.Base.{
  Bool, true, false, not, ◌&&◌, Option, none, some, List, [], ◌∷◌, ◌++◌, if◌then◌else◌, nonempty,
}
use flnr.Base.Int.{ℤ, nonzero}
use flnr.Base.Text.{Text, codes}
use flnr.Base.Decimal.{show_ℤ}
use flnr.Fate.{ProcessFate}
use flnr.Monitors.{PyException, MonitorFailure}

-- The four public subclasses of `ProcessExecutionError`.
pub data ErrorClass : Type 0 where
  command_failed monitor_failed supervision_failed process_kill_failed : ErrorClass

pub record ProcessExecutionError : Type 0 where
  pub error_class : ErrorClass
  pub fate : ProcessFate
  pub monitor_failures : List MonitorFailure
  pub internal_exceptions : List PyException
  pub message : Text

-- How a reader or environment task ended; all of them have, by `close_monitoring`.
pub data TaskEnd : Type 0 where
  completed cancelled : TaskEnd
  failed : PyException → TaskEnd

pub data Report : Type 0 where
  returned : ProcessFate → Report
  raised : ProcessExecutionError → Report
  -- `assert self.process.returncode is not None`
  assertion_failed : Report

-- The loop that collects `internal_failures`.
unfoldable pub internal_failures : List TaskEnd → List PyException
internal_failures [] = []
internal_failures (failed exc ∷ tasks) = exc ∷ internal_failures tasks
internal_failures (_ ∷ tasks) = internal_failures tasks

abbrev pub unexpected_code : ℤ → Text
unexpected_code code = codes "unexpected return code " ++ show_ℤ code

-- From the check of the return code on; the code is that of the process object.
unfoldable pub report_exit : Bool → List MonitorFailure → ProcessFate → Option ℤ → Report
report_exit check failures fate none = assertion_failed
report_exit check failures fate (some code) =
    if check && nonzero code
    then raised (record {
      error_class = command_failed;
      fate = fate;
      monitor_failures = failures;
      internal_exceptions = [];
      message = unexpected_code code;
    })
    else if nonempty failures
    then raised (record {
      error_class = monitor_failed;
      fate = fate;
      monitor_failures = failures;
      internal_exceptions = [];
      message = codes "monitor failures were detected during the run";
    })
    else returned fate

-- With a known exit: internal failures come first.
unfoldable pub report_known :
    Bool → List PyException → List MonitorFailure → ProcessFate → Option ℤ → Report
unfolding report_exit
report_known check internal failures fate code =
    if nonempty internal
    then raised (record {
      error_class = supervision_failed;
      fate = fate;
      monitor_failures = failures;
      internal_exceptions = internal;
      message = codes "supervision failed due to unrecoverable errors";
    })
    else report_exit check failures fate code

-- `report_result`: `check` of the arguments, how the tasks ended, the recorded monitor failures,
-- the return code of the process object, and the resolved fate.
unfoldable pub report_result :
    Bool → List TaskEnd → List MonitorFailure → Option ℤ → ProcessFate → Report
unfolding report_known
report_result check tasks failures code fate =
    let internal = internal_failures tasks in
    elim fate.returncode [
      | none ↦ raised (record {
        error_class = process_kill_failed;
        fate = fate;
        monitor_failures = failures;
        internal_exceptions = internal;
        message = codes "process exit was not observed";
      })
      | some _ ↦ report_known check internal failures fate code
    ]
