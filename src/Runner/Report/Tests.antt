-- ===== src/Runner/Report/Tests.antt =====
-- Runs and instances for `report_result` of src/flnr/flnr.py.
use flnr.Base.{◌≡◌, refl, none, some, List, [], ◌∷◌}
use flnr.Base.Int.{ℤ, negsuc}
use flnr.Base.Text.{codes}
use flnr.Base.Decimal.{show_ℕ, show_ℤ}
use flnr.Fate.{ProcessFate, no_intervention, method_none, internal_failure, kill}
use flnr.Monitors.{PyException, MonitorFailure, process, stdout}
use flnr.Runner.Report.{TaskEnd, completed, cancelled, failed, unexpected_code}

abbrev exits : ℤ → ProcessFate
exits code = record {
  termination_decision = no_intervention;
  termination_method = method_none;
  returncode = some code;
}

abbrev lost : ProcessFate
lost = record {
  termination_decision = internal_failure;
  termination_method = kill;
  returncode = none;
}

abbrev broken_pipe : PyException
broken_pipe = record {
  type_name = "BrokenPipeError";
  text = "gone";
  representation = "BrokenPipeError('gone')";
  backtrace = "Traceback";
}

abbrev tee_failed : MonitorFailure
tee_failed = record {
  monitor = record { type_name = "Tee" };
  hook = process;
  exception = broken_pipe;
  monitor_index = 0;
  stream = some stdout;
}

abbrev ends : List TaskEnd
ends = completed ∷ failed broken_pipe ∷ cancelled ∷ []

message-signal : unexpected_code (negsuc 14) ≡ codes "unexpected return code -15"
unfolding show_ℤ show_ℕ
message-signal = refl
