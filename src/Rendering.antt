-- ===== src/Rendering.antt =====
-- The texts of failures and errors: src/flnr/_monitor_failure_rendering.py, with the `__str__` of
-- src/flnr/exceptions.py, src/flnr/monitor_failure.py and src/flnr/fate.py. How Python formats the
-- traceback of an exception is part of the exception (`backtrace`).
pub mod Shown
mod Tests
use flnr.Base.{
  ℕ, suc, Bool, true, false, ◌&&◌, ◌||◌, Option, none, some, List, [], ◌∷◌, ◌++◌, ◌==◌, leb,
  if◌then◌else◌, length, nonempty,
}
use flnr.Base.Int.{ℤ}
use flnr.Base.Text.{Text, codes, join}
use flnr.Base.Decimal.{show_ℕ, show_ℤ}
use flnr.Fate.{
  ProcessTerminationDecision, no_intervention, timeout, external_request, internal_failure,
  ProcessTerminationMethod, method_none, terminate, kill, ProcessFate,
}
use flnr.Monitors.{
  MonitorHook, process, on_disable, on_start, observe, on_end, OutputStream, stdout, stderr,
  PyException, MonitorFailure,
}
use flnr.Runner.Report.{ProcessExecutionError}

-- `str.isspace` of a character
abbrev pub is_space : ℕ → Bool
is_space c =
    (leb 9 c && leb c 13)
    || (leb 28 c && leb c 32)
    || c == 133
    || c == 160
    || c == 5760
    || (leb 8192 c && leb c 8202)
    || c == 8232
    || c == 8233
    || c == 8239
    || c == 8287
    || c == 12288

-- `str.rstrip`
unfoldable pub rstrip : Text → Text
rstrip [] = []
rstrip (c ∷ s) =
    let rest = rstrip s in if is_space c then (if nonempty rest then c ∷ rest else []) else c ∷ rest

abbrev pub hook_text : MonitorHook → Text
hook_text process = codes "process"
hook_text on_disable = codes "on_disable"
hook_text on_start = codes "on_start"
hook_text observe = codes "observe"
hook_text on_end = codes "on_end"

abbrev pub stream_text : OutputStream → Text
stream_text stdout = codes "stdout"
stream_text stderr = codes "stderr"

-- `MonitorFailure.monitor_kind`
pub monitor_kind : MonitorFailure → Text
monitor_kind f = elim f.stream [
  | none ↦ codes "environment monitor"
  | some stream ↦ stream_text stream ++ codes " monitor"
]

abbrev pub identity_text : MonitorFailure → Text
identity_text f =
    monitor_kind f
    ++ (codes " #"
        ++ (show_ℕ f.monitor_index
            ++ (codes " ("
                ++ (codes f.monitor.type_name ++ (codes ") failed in " ++ hook_text f.hook)))))

-- `MonitorFailure.__str__`
pub monitor_failure_text : MonitorFailure → Text
unfolding monitor_kind
monitor_failure_text f = identity_text f ++ (codes ": " ++ codes f.exception.representation)

-- `{type(exc).__name__}: {exc}`
abbrev pub exception_text : PyException → Text
exception_text exc = codes exc.type_name ++ (codes ": " ++ codes exc.text)

abbrev pub numbered : ℕ → Text → Text
numbered n text = codes "[" ++ (show_ℕ n ++ (codes "] " ++ text))

-- `_format_exc_backtrace`
pub format_exc_backtrace : PyException → Text
unfolding rstrip
format_exc_backtrace exc = rstrip (codes exc.backtrace)

-- `_format_monitor_failure_detail_header`
pub format_detail_header : MonitorFailure → ℕ → Text
unfolding monitor_kind
format_detail_header f n = numbered n (identity_text f)

-- `_format_monitor_failure_brief`
pub format_brief : MonitorFailure → ℕ → Text
unfolding monitor_kind
format_brief f n = numbered n (identity_text f ++ (codes ": " ++ exception_text f.exception))

-- the two loops of `format_monitor_failures`
pub brief_lines : ℕ → List MonitorFailure → List Text
unfolding format_brief
brief_lines n [] = []
brief_lines n (f ∷ failures) = format_brief f n ∷ brief_lines (suc n) failures

pub detail_lines : ℕ → List MonitorFailure → List Text
unfolding format_detail_header format_exc_backtrace
detail_lines n [] = []
detail_lines n (f ∷ failures) =
    format_detail_header f n ∷ format_exc_backtrace f.exception ∷ [] ∷ detail_lines (suc n) failures

abbrev pub summary_lines : List MonitorFailure → List Text
summary_lines failures =
    (show_ℕ (length failures) ++ codes " monitor failure(s) recorded:")
    ∷ []
    ∷ brief_lines 1 failures

pub format_monitor_failures : List MonitorFailure → Text
unfolding brief_lines detail_lines rstrip
format_monitor_failures [] = []
format_monitor_failures (f ∷ failures) = rstrip (
    join (codes "\n") (
      summary_lines (f ∷ failures)
      ++ [] ∷ codes "Monitor failure details:" ∷ [] ∷ detail_lines 1 (f ∷ failures)))

-- the loop of `format_internal_exceptions`
pub exception_lines : ℕ → List PyException → List Text
unfolding format_exc_backtrace
exception_lines n [] = []
exception_lines n (exc ∷ excs) =
    numbered n (exception_text exc) ∷ format_exc_backtrace exc ∷ [] ∷ exception_lines (suc n) excs

pub format_internal_exceptions : List PyException → Text
unfolding exception_lines rstrip
format_internal_exceptions [] = []
format_internal_exceptions (exc ∷ excs) =
    rstrip
      (join (codes "\n") ([] ∷ codes "Internal failures:" ∷ [] ∷ exception_lines 1 (exc ∷ excs)))

pub decision_text : ProcessTerminationDecision → Text
decision_text no_intervention = codes "no_intervention"
decision_text timeout = codes "timeout"
decision_text external_request = codes "external_request"
decision_text internal_failure = codes "internal_failure"

pub method_text : ProcessTerminationMethod → Text
method_text method_none = codes "none"
method_text terminate = codes "terminate"
method_text kill = codes "kill"

abbrev pub code_text : Option ℤ → Text
code_text none = codes "None"
code_text (some code) = show_ℤ code

-- `ProcessFate.__str__`
pub fate_text : ProcessFate → Text
unfolding decision_text method_text
fate_text f =
    codes "returncode="
    ++ (code_text f.returncode
        ++ (codes ", decision="
            ++ (decision_text f.termination_decision
                ++ (codes ", method=" ++ method_text f.termination_method))))

abbrev pub if_any : Text → List Text
if_any [] = []
if_any (c ∷ text) = (c ∷ text) ∷ []

-- `ProcessExecutionError.__str__`
pub error_text : ProcessExecutionError → Text
unfolding fate_text format_monitor_failures format_internal_exceptions
error_text e = join (codes "\n") (
    e.message
    ∷ (codes "fate: " ++ fate_text e.fate)
    ∷ (if_any (format_monitor_failures e.monitor_failures)
        ++ if_any (format_internal_exceptions e.internal_exceptions)))
