-- ===== src/Sink/Tests.antt =====
-- A sink of src/flnr/_observatory.py with two monitors, the first of which raises at its second
-- chunk and again in `on_disable`.
use flnr.Base.{◌≡◌, refl, true, none, some, List, [], ◌∷◌, length, ltb, if◌then◌else◌}
use flnr.Base.Int.{pos}
use flnr.Outcome.{Result, ok, ◌>>=◌}
use flnr.Floats.{PyFloat, finite}
use flnr.Monitors.{eof, error, Monitor, stdout, PyException}
use flnr.Sink.{
  Call, process_call, disable_call, Handle, Monitoring, Behaviour, for_each, deliver, on_data,
  disable_all, handles_from,
}
use flnr.Sink.Loop.{Tracked, Loop}
use flnr.Sink.Lifetime.{InStep, IsClosed, disable_all-IsClosed}

abbrev broken_pipe : PyException
broken_pipe = record {
  type_name = "BrokenPipeError";
  text = "broken";
  representation = "BrokenPipeError('broken')";
  backtrace = "";
}

abbrev monitors : List Monitor
monitors = record { type_name = "Tee" } ∷ record { type_name = "Log" } ∷ []

abbrev now : PyFloat
now = finite (pos 7)

abbrev empty : Monitoring
empty = record { monitor_failures = []; calls = [] }

-- The callbacks raise from the third call on: at the second chunk of the first monitor.
abbrev raises : Behaviour
raises log = if ltb 2 (length log) then some broken_pipe else none

abbrev handles : List Handle
handles =
    record {
      monitor = record { type_name = "Tee" };
      monitor_index = 0;
      stream = stdout;
      is_active = true;
    }
    ∷ record {
      monitor = record { type_name = "Log" };
      monitor_index = 1;
      stream = stdout;
      is_active = true;
    }
    ∷ []

handles_from-monitors : handles_from 0 monitors stdout ≡ handles
unfolding handles_from
handles_from-monitors = refl

tracked : Tracked (InStep []) 0 handles []
tracked = (refl, (refl, refl), (refl, (refl, refl), tt))

disable_all-IsClosed_example : Loop (IsClosed []) 0 empty (disable_all raises handles eof now empty)
disable_all-IsClosed_example = disable_all-IsClosed raises [] eof now handles empty tracked

abbrev log_of : Result (List Handle × Monitoring) → List Call
log_of (ok (hs, m)) = m.calls
log_of _ = []

-- Two chunks: the first monitor fails at the second chunk and is told so, the second monitor too.
two_chunks :
    log_of
      (on_data raises handles (1 ∷ []) now empty >>= λ (hs, m). on_data raises hs (2 ∷ []) now m)
    ≡ process_call 0 (1 ∷ []) now
      ∷ process_call 1 (1 ∷ []) now
      ∷ process_call 0 (2 ∷ []) now
      ∷ disable_call 0 error now
      ∷ process_call 1 (2 ∷ []) now
      ∷ disable_call 1 error now
      ∷ []
unfolding on_data for_each deliver
two_chunks = refl
