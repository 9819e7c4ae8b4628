-- ===== src/Sink.antt =====
-- `_OutputMonitorHandle` of src/flnr/_monitor_handles.py and `_StreamEventsSink` of
-- src/flnr/_observatory.py: the monitors of one stream. Each callback is logged; what it does then,
-- returning or raising, is an unknown function of the log so far, so a monitor may keep any state.
pub mod Calls
pub mod Loop
pub mod Lifetime
pub mod Received
pub mod Failures
mod Tests
use flnr.Base.{
  ℕ, suc, ◌+◌, Bool, true, false, Option, none, some, List, [], ◌∷◌, ◌++◌, if◌then◌else◌,
}
use flnr.Outcome.{Result, ok, err, assertion_error, ◌>>=◌}
use flnr.Floats.{PyFloat}
use flnr.Monitors.{
  DisableReason, error, MonitorHook, process, on_disable, OutputStream, PyException, Monitor,
  MonitorFailure,
}

abbrev pub Bytes : Type 0
Bytes = List ℕ

-- A callback of the monitor with the given index.
pub data Call : Type 0 where
  process_call : ℕ → Bytes → PyFloat → Call
  disable_call : ℕ → DisableReason → PyFloat → Call

pub record Handle : Type 0 where
  pub monitor : Monitor
  pub monitor_index : ℕ
  pub stream : OutputStream
  pub is_active : Bool

-- What the handles share: the list of failures, and the log.
pub record Monitoring : Type 0 where
  pub monitor_failures : List MonitorFailure
  pub calls : List Call

-- The exception that a callback raises, if any, by the log that ends in it.
abbrev pub Behaviour : Type 0
Behaviour = List Call → Option PyException

-- `_record_failure`, for an output monitor
unfoldable pub record_failure :
    Handle → MonitorHook → PyException → Monitoring → Handle × Monitoring
record_failure h hook exc m =
    let failure : MonitorFailure = record {
      monitor = h.monitor;
      hook = hook;
      exception = exc;
      monitor_index = h.monitor_index;
      stream = some h.stream;
    } in
    (
      record h { is_active = false },
      record m { monitor_failures = m.monitor_failures ++ failure ∷ [] },
    )

unfoldable pub log_call : Call → Monitoring → Monitoring
log_call c m = record m { calls = m.calls ++ c ∷ [] }

-- A `for` loop over the handles.
unfoldable pub for_each :
    (Handle → Monitoring → Result (Handle × Monitoring))
    → List Handle
    → Monitoring
    → Result (List Handle × Monitoring)
for_each f [] m = ok ([], m)
for_each f (h ∷ hs) m = do (h', m') ← f h m; (hs', m'') ← for_each f hs m'; ok (h' ∷ hs', m'')

module _ (raises : Behaviour) where
  -- `_disable`
  unfoldable pub disable : Handle → DisableReason → PyFloat → Monitoring → Handle × Monitoring
  unfolding record_failure log_call
  disable h reason ts m =
      let h' = record h { is_active = false } in
      let m' = log_call (disable_call h.monitor_index reason ts) m in
      elim (raises m'.calls) [ none ↦ (h', m') | some exc ↦ record_failure h' on_disable exc m' ]

  -- the `except` clause of `process`
  unfoldable pub process_failed : Handle → PyFloat → PyException → Monitoring → Handle × Monitoring
  unfolding disable record_failure
  process_failed h ts exc m =
      let (h', m') = record_failure h process exc m in disable h' error ts m'

  -- `_OutputMonitorHandle.process`
  unfoldable pub handle_process :
      Handle → Bytes → PyFloat → Monitoring → Result (Handle × Monitoring)
  unfolding process_failed log_call
  handle_process h chunk ts m =
      if h.is_active
      then (let m' = log_call (process_call h.monitor_index chunk ts) m in
          elim (raises m'.calls) [ none ↦ ok (h, m') | some exc ↦ ok (process_failed h ts exc m') ])
      else err assertion_error

  -- `_OutputMonitorHandle.on_disable`
  unfoldable pub handle_on_disable :
      Handle → DisableReason → PyFloat → Monitoring → Result (Handle × Monitoring)
  unfolding disable
  handle_on_disable h reason ts m =
      if h.is_active then ok (disable h reason ts m) else err assertion_error

  -- one round of `_StreamEventsSink.on_data`
  unfoldable pub deliver : Bytes → PyFloat → Handle → Monitoring → Result (Handle × Monitoring)
  unfolding handle_process
  deliver chunk ts h m = if h.is_active then handle_process h chunk ts m else ok (h, m)

  unfoldable pub on_data :
      List Handle → Bytes → PyFloat → Monitoring → Result (List Handle × Monitoring)
  on_data hs chunk ts m = for_each (deliver chunk ts) hs m

  -- one round of `_StreamEventsSink.disable`, with its assertion
  unfoldable pub disable_one :
      DisableReason → PyFloat → Handle → Monitoring → Result (Handle × Monitoring)
  unfolding handle_on_disable
  disable_one reason ts h m =
      if h.is_active
      then (do
        (h', m') ← handle_on_disable h reason ts m
        if h'.is_active then err assertion_error else ok (h', m'))
      else ok (h, m)

  unfoldable pub disable_all :
      List Handle → DisableReason → PyFloat → Monitoring → Result (List Handle × Monitoring)
  disable_all hs reason ts m = for_each (disable_one reason ts) hs m

-- `_StreamEventsSink.__init__`: the handles, numbered by `enumerate`.
unfoldable pub handles_from : ℕ → List Monitor → OutputStream → List Handle
handles_from i [] stream = []
handles_from i (monitor ∷ monitors) stream =
    record { monitor = monitor; monitor_index = i; stream = stream; is_active = true }
    ∷ handles_from (suc i) monitors stream
