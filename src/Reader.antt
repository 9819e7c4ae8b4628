-- ===== src/Reader.antt =====
-- `_stream_relay`, `_drain_controller` and `_reader_task` of src/flnr/_observatory.py, cut at their
-- awaits, with `_TaskLedger.cancel_all` of src/flnr/_task_ledger.py as far as it cancels the two.
-- What the callbacks of the monitors raise is the parameter `raises` of the sink.
pub mod Invariant
pub mod Runs
pub mod Drain
pub mod Delivery
pub mod Failures
mod Tests
use flnr.Base.{◌≡◌, ◌≢◌, Bool, true, false, List, [], ◌∷◌, ◌++◌, if◌then◌else◌}
use flnr.Outcome.{ok, err}
use flnr.Floats.{PyFloat}
use flnr.Monitors.{Monitor, MonitorFailure, OutputStream, eof, error, drain_timeout}
use flnr.Sink.{Bytes, Handle, Monitoring, Behaviour, handles_from, on_data, disable_all}

-- How the relay task is over. Cancelled before its first step it is `unstarted`: the coroutine,
-- its `finally` included, never runs.
pub data RelayEnd : Type 0 where
  completed cancelled failed unstarted : RelayEnd

-- Where the relay stands: not run yet; at the read, at the wait for the callbacks with the chunk
-- that was read and its time, at the sleep; or over.
pub data RelayPhase : Type 0 where
  created reading yielding : RelayPhase
  holding : Bytes → PyFloat → RelayPhase
  ended : RelayEnd → RelayPhase

-- The drain controller: the wait for the request, for the relay, for the relay that it cancelled;
-- or its end.
pub data DrainPhase : Type 0 where
  waiting_request waiting_relay cancelling drained stopped assertion_failed : DrainPhase

pub record Reader : Type 0 where
  pub handles : List Handle
  pub monitoring : Monitoring
  -- what the stream has given so far, and whether a read of it raised
  pub chunks_read : List Bytes
  pub read_error : Bool
  pub monitor_callbacks_allowed : Bool
  pub drain_requested : Bool
  pub fatal_reader_error : Bool
  -- the tasks and the requests to cancel them
  pub relay : RelayPhase
  pub relay_cancelled : Bool
  pub drain : DrainPhase
  pub drain_cancelled : Bool

abbrev pub is_ended : RelayPhase → Bool
is_ended (ended how) = true
is_ended created = false
is_ended reading = false
is_ended yielding = false
is_ended (holding chunk ts) = false

-- the relay stands at one of its awaits
abbrev pub awaits : RelayPhase → Bool
awaits created = false
awaits reading = true
awaits yielding = true
awaits (holding chunk ts) = true
awaits (ended how) = false

abbrev pub is_over : DrainPhase → Bool
is_over waiting_request = false
is_over waiting_relay = false
is_over cancelling = false
is_over drained = true
is_over stopped = true
is_over assertion_failed = true

-- `_reader_task` up to its gather
unfoldable pub start_reader : List Monitor → OutputStream → List MonitorFailure → Reader
start_reader monitors stream failures = record {
  handles = handles_from 0 monitors stream;
  monitoring = record { monitor_failures = failures; calls = [] };
  chunks_read = [];
  read_error = false;
  monitor_callbacks_allowed = true;
  drain_requested = false;
  fatal_reader_error = false;
  relay = created;
  relay_cancelled = false;
  drain = waiting_request;
  drain_cancelled = false;
}

module _ (raises : Behaviour) where
  -- the `finally` of `_stream_relay`, which then ends
  unfoldable pub finalize : RelayEnd → PyFloat → Reader → Reader
  finalize how ts w = elim (disable_all raises w.handles error ts w.monitoring) [
    | err exc ↦ record w { relay = ended failed }
    | ok (hs, m) ↦ record w { handles = hs; monitoring = m; relay = ended how }
  ]

  -- the `except` clause: an exception that is no cancellation
  unfoldable pub relay_failed : PyFloat → Reader → Reader
  unfolding finalize
  relay_failed ts w = finalize failed ts (record w { fatal_reader_error = true })

  -- `event_sink.on_data`, up to the sleep; `ts` is when the chunk was read
  unfoldable pub after_allowed : Bytes → PyFloat → PyFloat → Reader → Reader
  unfolding relay_failed
  after_allowed chunk ts now w = elim (on_data raises w.handles chunk ts w.monitoring) [
    | err exc ↦ relay_failed now w
    | ok (hs, m) ↦ record w { handles = hs; monitoring = m; relay = yielding }
  ]

  -- An empty read ends the loop: `disable` with EOF, then the `finally`.
  unfoldable pub at_eof : PyFloat → PyFloat → Reader → Reader
  unfolding finalize relay_failed
  at_eof ts now w = elim (disable_all raises w.handles eof ts w.monitoring) [
    | err exc ↦ relay_failed now w
    | ok (hs, m) ↦ finalize completed now (record w { handles = hs; monitoring = m })
  ]

  -- After a read that returned: the wait for the callbacks is over at once where they are allowed.
  unfoldable pub after_read : Bytes → PyFloat → PyFloat → Reader → Reader
  unfolding at_eof after_allowed
  after_read [] ts now w = at_eof ts now w
  after_read (b ∷ bs) ts now w =
      let w' = record w { chunks_read = w.chunks_read ++ (b ∷ bs) ∷ [] } in
      if w.monitor_callbacks_allowed
      then after_allowed (b ∷ bs) ts now w'
      else record w' { relay = holding (b ∷ bs) ts }

  -- `_drain_controller` after its second wait, up to the wait for the cancelled relay
  unfoldable pub after_drain_wait : PyFloat → Reader → Reader
  after_drain_wait ts w = elim (disable_all raises w.handles drain_timeout ts w.monitoring) [
    | err exc ↦ record w { drain = assertion_failed }
    | ok (hs, m) ↦
        if is_ended w.relay
        then record w { handles = hs; monitoring = m; drain = drained }
        else record w { handles = hs; monitoring = m; drain = cancelling; relay_cancelled = true }
  ]

  -- One move of the stream, of the run's events, or of a task. A task that is to be cancelled
  -- gets the cancellation at its await, whatever that waited for.
  pub data Step : Reader → Reader → Type 0 where
    monitors_paused : (w : Reader) → Step w (record w { monitor_callbacks_allowed = false })
    monitors_resumed : (w : Reader) → Step w (record w { monitor_callbacks_allowed = true })
    drain_is_requested : (w : Reader) → Step w (record w { drain_requested = true })
    -- the list of failures is shared with the other stream and the environment monitors
    failure_elsewhere :
        (w : Reader) (f : MonitorFailure)
        → Step w (record w {
          monitoring = record (w.monitoring) {
            monitor_failures = w.monitoring.monitor_failures ++ f ∷ [];
          };
        })
    relay_starts :
        (w : Reader)
        → w.relay ≡ created
        → w.relay_cancelled ≡ false
        → Step w (record w { relay = reading })
    never_started :
        (w : Reader)
        → w.relay ≡ created
        → w.relay_cancelled ≡ true
        → Step w (record w { relay = ended unstarted })
    read_returns :
        (w : Reader) (chunk : Bytes) (ts now : PyFloat)
        → w.relay ≡ reading
        → w.relay_cancelled ≡ false
        → Step w (after_read chunk ts now w)
    read_raises :
        (w : Reader) (now : PyFloat)
        → w.relay ≡ reading
        → w.relay_cancelled ≡ false
        → Step w (relay_failed now (record w { read_error = true }))
    callbacks_allowed :
        (w : Reader) (chunk : Bytes) (ts now : PyFloat)
        → w.relay ≡ holding chunk ts
        → w.relay_cancelled ≡ false
        → w.monitor_callbacks_allowed ≡ true
        → Step w (after_allowed chunk ts now w)
    slept :
        (w : Reader)
        → w.relay ≡ yielding
        → w.relay_cancelled ≡ false
        → Step w (record w { relay = reading })
    relay_is_cancelled :
        (w : Reader) (now : PyFloat)
        → awaits w.relay ≡ true
        → w.relay_cancelled ≡ true
        → Step w (finalize cancelled now w)
    drain_seen :
        (w : Reader)
        → w.drain ≡ waiting_request
        → w.drain_requested ≡ true
        → Step w (record w { drain = waiting_relay })
    -- the relay is done, or `output_drain` has passed
    drain_wait_ends :
        (w : Reader) (ts : PyFloat) → w.drain ≡ waiting_relay → Step w (after_drain_wait ts w)
    relay_gathered :
        (w : Reader)
        → w.drain ≡ cancelling
        → is_ended w.relay ≡ true
        → Step w (record w { drain = drained })
    -- `cancel_all` of the reader's ledger, or the reader task is cancelled
    tasks_cancelled :
        (w : Reader) → Step w (record w { relay_cancelled = true; drain_cancelled = true })
    drain_is_cancelled :
        (w : Reader)
        → is_over w.drain ≡ false
        → w.drain_cancelled ≡ true
        → Step w (record w { drain = stopped })

  -- A reader's run, move by move.
  pub data Reach (first : Reader) : Reader → Type 0 where
    begun : Reach first first
    moved : {w v : Reader} → Reach first w → Step w v → Reach first v
