-- ===== src/Runner/Supervision/Pauses.antt =====
-- No monitor of a run is called while the fate coroutine confirms a death (src/flnr/flnr.py,
-- src/flnr/_echafaud.py, src/flnr/_observatory.py).
use flnr.Base.{ℕ, List, map}
use flnr.Base.Text.{Text}
use flnr.Sink.{Bytes}
use flnr.Sink.Calls.{received}
use flnr.EnvMonitor.{EnvCall}
use flnr.Runner.Supervision.{StreamTask, EnvTask}

-- What the monitors have been given and told so far: the chunks of each reader's monitor with
-- number `i`, and the calls of each environment monitor.
abbrev pub given : ℕ → List StreamTask → List (List Bytes)
given i ts = map (λ t. received i t.reader.monitoring.calls) ts

abbrev pub told : List EnvTask → List (List EnvCall)
told ts = map (λ t. t.world.calls) ts
