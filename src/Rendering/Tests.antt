-- ===== src/Rendering/Tests.antt =====
-- Runs of the renderers of src/flnr/_monitor_failure_rendering.py and src/flnr/fate.py.
use flnr.Base.{◌≡◌, refl, some, [], ◌∷◌}
use flnr.Base.Int.{negsuc}
use flnr.Base.Text.{codes}
use flnr.Base.Decimal.{show_ℕ, show_ℤ}
use flnr.Fate.{ProcessFate, timeout, kill}
use flnr.Monitors.{MonitorFailure, process, stdout}
use flnr.Runner.Report.{ProcessExecutionError, monitor_failed}
use flnr.Rendering.{
  rstrip, fate_text, monitor_kind, format_brief, monitor_failure_text, format_monitor_failures,
  brief_lines, detail_lines, format_detail_header, format_exc_backtrace,
}

abbrev killed : ProcessFate
killed = record {
  termination_decision = timeout;
  termination_method = kill;
  returncode = some (negsuc 8);
}

fate_text-killed : fate_text killed ≡ codes "returncode=-9, decision=timeout, method=kill"
unfolding fate_text show_ℤ show_ℕ
fate_text-killed = refl

abbrev tee_failed : MonitorFailure
tee_failed = record {
  monitor = record { type_name = "Tee" };
  hook = process;
  exception = record {
    type_name = "OSError";
    text = "full";
    representation = "OSError('full')";
    backtrace = "Traceback\n";
  };
  monitor_index = 0;
  stream = some stdout;
}

monitor_failure_text-tee :
    monitor_failure_text tee_failed
    ≡ codes "stdout monitor #0 (Tee) failed in process: OSError('full')"
unfolding monitor_failure_text monitor_kind show_ℕ
monitor_failure_text-tee = refl

format_monitor_failures-tee :
    format_monitor_failures (tee_failed ∷ [])
    ≡ codes
        "1 monitor failure(s) recorded:\n\n[1] stdout monitor #0 (Tee) failed in process: OSError: full\n\nMonitor failure details:\n\n[1] stdout monitor #0 (Tee) failed in process\nTraceback"
unfolding format_monitor_failures brief_lines detail_lines format_brief format_detail_header
    format_exc_backtrace monitor_kind rstrip show_ℕ
format_monitor_failures-tee = refl

abbrev error : ProcessExecutionError
error = record {
  error_class = monitor_failed;
  fate = killed;
  monitor_failures = tee_failed ∷ tee_failed ∷ [];
  internal_exceptions = [];
  message = codes "monitor failures were detected during the run";
}
