-- ===== src/Reader/Runs.antt =====
-- What holds in every run of a reader (src/flnr/_observatory.py), move by move, whatever the order
-- of its tasks, the stream, the drain request and the pauses, and whatever the callbacks raise.
use flnr.Base.{
  ◌≡◌, refl, sym, subst, ap, ◌∙◌, Bool, true, false, List, [], ◌∷◌, ◌++◌, append-nil, if◌then◌else◌,
}
use flnr.Floats.{PyFloat}
use flnr.Monitors.{Monitor, MonitorFailure, OutputStream, eof, error, drain_timeout}
use flnr.Sink.{Bytes, Behaviour}
use flnr.Sink.Loop.{Tracked}
use flnr.Sink.Lifetime.{InStep, on_data-InStep, disable_all-IsClosed, handles_from-Tracked}
use flnr.Reader.{
  RelayEnd, completed, cancelled, failed, RelayPhase, created, reading, yielding, holding, ended,
  DrainPhase, Reader, is_ended, awaits, start_reader, finalize, relay_failed, after_allowed, at_eof,
  after_read, after_drain_wait, Step, monitors_paused, monitors_resumed, drain_is_requested,
  failure_elsewhere, relay_starts, never_started, read_returns, read_raises, callbacks_allowed,
  slept, relay_is_cancelled, drain_seen, drain_wait_ends, relay_gathered, tasks_cancelled,
  drain_is_cancelled, Reach, begun, moved,
}
use flnr.Reader.Invariant.{
  Kept, Fed, is_failed, is_assertion, IsSound, closed-InStep, Kept-InStep, closed-Kept,
}

in_both : (test : Bool) (v w : Reader) → IsSound v → IsSound w → IsSound (if test then v else w)
in_both true v w a b = a
in_both false v w a b = b

module _ (raises : Behaviour) where
  -- `finalize` at a sink in step, with what was read so far.
  finalize-IsSound :
      (how : RelayEnd) (ts : PyFloat) (w : Reader) (sent : List Bytes)
      → Tracked (InStep sent) 0 w.handles w.monitoring.calls
      → Fed (ended how) sent w.chunks_read
      → w.fatal_reader_error ≡ is_failed (ended how)
      → w.read_error ≡ is_failed (ended how)
      → is_assertion w.drain ≡ false
      → IsSound (finalize raises how ts w)
  unfolding finalize
  finalize-IsSound how ts w sent t fed fatal errors asserted =
      let l = disable_all-IsClosed raises sent error ts w.handles w.monitoring t in
      rw (l.returned, finalize)
        (record {
          sent = sent;
          tracked = closed-Kept sent l.after l.monitoring.calls (ended how) l.tracked;
          fed = fed;
          fatal = fatal;
          errors = errors;
          asserted = asserted;
        })

  after_allowed-IsSound :
      (chunk : Bytes) (ts now : PyFloat) (w : Reader) (sent : List Bytes)
      → Tracked (InStep sent) 0 w.handles w.monitoring.calls
      → w.chunks_read ≡ sent ++ chunk ∷ []
      → w.fatal_reader_error ≡ false
      → w.read_error ≡ false
      → is_assertion w.drain ≡ false
      → IsSound (after_allowed raises chunk ts now w)
  unfolding after_allowed
  after_allowed-IsSound chunk ts now w sent t fed fatal errors asserted =
      let l = on_data-InStep raises sent chunk ts w.handles w.monitoring t in
      rw (l.returned, after_allowed)
        (record {
          sent = sent ++ chunk ∷ [];
          tracked = l.tracked;
          fed = fed;
          fatal = fatal;
          errors = errors;
          asserted = asserted;
        })

  at_eof-IsSound :
      (ts now : PyFloat) (w : Reader) (sent : List Bytes)
      → Tracked (InStep sent) 0 w.handles w.monitoring.calls
      → w.chunks_read ≡ sent
      → w.fatal_reader_error ≡ false
      → w.read_error ≡ false
      → is_assertion w.drain ≡ false
      → IsSound (at_eof raises ts now w)
  unfolding at_eof
  at_eof-IsSound ts now w sent t fed fatal errors asserted =
      let l = disable_all-IsClosed raises sent eof ts w.handles w.monitoring t in
      rw (l.returned, at_eof)
        (finalize-IsSound completed now (record w { handles = l.after; monitoring = l.monitoring })
          sent (closed-InStep sent l.after l.monitoring.calls l.tracked) fed fatal errors asserted)

  after_read-IsSound :
      (chunk : Bytes) (ts now : PyFloat) (w : Reader) (sent : List Bytes)
      → Tracked (InStep sent) 0 w.handles w.monitoring.calls
      → w.chunks_read ≡ sent
      → w.fatal_reader_error ≡ false
      → w.read_error ≡ false
      → is_assertion w.drain ≡ false
      → IsSound (after_read raises chunk ts now w)
  unfolding after_read
  after_read-IsSound [] ts now w sent t fed fatal errors asserted =
      at_eof-IsSound ts now w sent t fed fatal errors asserted
  after_read-IsSound (b ∷ bs) ts now w sent t fed fatal errors asserted =
      let chunk = b ∷ bs in
      let w' = record w { chunks_read = w.chunks_read ++ chunk ∷ [] } in
      let more = ap (λ read. read ++ chunk ∷ []) fed in
      in_both w.monitor_callbacks_allowed _ _
        (after_allowed-IsSound chunk ts now w' sent t more fatal errors asserted)
        (record {
          sent = sent;
          tracked = t;
          fed = more;
          fatal = fatal;
          errors = errors;
          asserted = asserted;
        })

  after_drain_wait-IsSound :
      (ts : PyFloat) (w : Reader) → IsSound w → IsSound (after_drain_wait raises ts w)
  unfolding after_drain_wait
  after_drain_wait-IsSound ts w s =
      let t = Kept-InStep s.sent w.handles w.monitoring.calls w.relay s.tracked in
      let l = disable_all-IsClosed raises s.sent drain_timeout ts w.handles w.monitoring t in
      let t' = closed-Kept s.sent l.after l.monitoring.calls w.relay l.tracked in
      rw (l.returned, after_drain_wait)
        (in_both (is_ended w.relay) _ _
          (record {
            sent = s.sent;
            tracked = t';
            fed = s.fed;
            fatal = s.fatal;
            errors = s.errors;
            asserted = refl;
          })
          (record {
            sent = s.sent;
            tracked = t';
            fed = s.fed;
            fatal = s.fatal;
            errors = s.errors;
            asserted = refl;
          }))

  -- The sink and the flags at a phase that is not over, as the next call wants them.
  at_phase :
      (w : Reader) (p : RelayPhase)
      → w.relay ≡ p
      → (s : IsSound w)
      → Tracked (Kept p s.sent) 0 w.handles w.monitoring.calls
        × Fed p s.sent w.chunks_read
        × (w.fatal_reader_error ≡ is_failed p)
        × (w.read_error ≡ is_failed p)
  at_phase w p e s = (
    subst (λ q. Tracked (Kept q s.sent) 0 w.handles w.monitoring.calls) e s.tracked,
    subst (λ q. Fed q s.sent w.chunks_read) e s.fed,
    s.fatal ∙ ap is_failed e,
    s.errors ∙ ap is_failed e,
  )

  cancelled-Fed :
      (p : RelayPhase) (sent got : List Bytes)
      → awaits p ≡ true
      → Fed p sent got
      → Fed (ended cancelled) sent got
  cancelled-Fed created sent got h f = cc
  cancelled-Fed reading sent got h f = ([], f ∙ sym (append-nil sent))
  cancelled-Fed yielding sent got h f = ([], f ∙ sym (append-nil sent))
  cancelled-Fed (holding chunk ts) sent got h f = (chunk ∷ [], f)
  cancelled-Fed (ended how) sent got h f = cc

  awaits_alive : (p : RelayPhase) → awaits p ≡ true → is_failed p ≡ false
  awaits_alive created h = cc
  awaits_alive reading h = refl
  awaits_alive yielding h = refl
  awaits_alive (holding chunk ts) h = refl
  awaits_alive (ended how) h = cc

  -- A move that leaves the sink, the stream and the relay alone.
  pub elsewhere :
      (w : Reader)
      → IsSound w
      → (allowed requested relay_cancelled drain_cancelled : Bool) (d : DrainPhase)
        (fs : List MonitorFailure)
      → is_assertion d ≡ false
      → IsSound (record w {
        monitoring = record (w.monitoring) { monitor_failures = fs };
        monitor_callbacks_allowed = allowed;
        drain_requested = requested;
        relay_cancelled = relay_cancelled;
        drain = d;
        drain_cancelled = drain_cancelled;
      })
  elsewhere w s allowed requested relay_cancelled drain_cancelled d fs asserted = record {
    sent = s.sent;
    tracked = s.tracked;
    fed = s.fed;
    fatal = s.fatal;
    errors = s.errors;
    asserted = asserted;
  }

  pub Step-IsSound : {w v : Reader} → Step raises w v → IsSound w → IsSound v
  unfolding relay_failed
  Step-IsSound (monitors_paused w) s = elsewhere w s _ _ _ _ _ _ s.asserted
  Step-IsSound (monitors_resumed w) s = elsewhere w s _ _ _ _ _ _ s.asserted
  Step-IsSound (drain_is_requested w) s = elsewhere w s _ _ _ _ _ _ s.asserted
  Step-IsSound (failure_elsewhere w f) s = elsewhere w s _ _ _ _ _ _ s.asserted
  Step-IsSound (tasks_cancelled w) s = elsewhere w s _ _ _ _ _ _ s.asserted
  Step-IsSound (drain_seen w e h) s = elsewhere w s _ _ _ _ _ _ refl
  Step-IsSound (relay_gathered w e h) s = elsewhere w s _ _ _ _ _ _ refl
  Step-IsSound (drain_is_cancelled w e h) s = elsewhere w s _ _ _ _ _ _ refl
  Step-IsSound (drain_wait_ends w ts e) s = after_drain_wait-IsSound ts w s
  Step-IsSound (relay_starts w e c) s =
      let (t, fed, fatal, errors) = at_phase w created e s in
      record {
        sent = s.sent;
        tracked = t;
        fed = fed;
        fatal = fatal;
        errors = errors;
        asserted = s.asserted;
      }
  Step-IsSound (slept w e c) s =
      let (t, fed, fatal, errors) = at_phase w yielding e s in
      record {
        sent = s.sent;
        tracked = t;
        fed = fed;
        fatal = fatal;
        errors = errors;
        asserted = s.asserted;
      }
  Step-IsSound (never_started w e c) s =
      let (t, fed, fatal, errors) = at_phase w created e s in
      record {
        sent = s.sent;
        tracked = t;
        fed = fed;
        fatal = fatal;
        errors = errors;
        asserted = s.asserted;
      }
  Step-IsSound (read_returns w chunk ts now e c) s =
      let (t, fed, fatal, errors) = at_phase w reading e s in
      after_read-IsSound chunk ts now w s.sent t fed fatal errors s.asserted
  Step-IsSound (read_raises w now e c) s =
      let (t, fed, fatal, errors) = at_phase w reading e s in
      finalize-IsSound failed now (record w { read_error = true; fatal_reader_error = true }) s.sent
        t fed refl refl s.asserted
  Step-IsSound (callbacks_allowed w chunk ts now e c a) s =
      let (t, fed, fatal, errors) = at_phase w (holding chunk ts) e s in
      after_allowed-IsSound chunk ts now w s.sent t fed fatal errors s.asserted
  Step-IsSound (relay_is_cancelled w now a c) s =
      finalize-IsSound cancelled now w s.sent
        (Kept-InStep s.sent w.handles w.monitoring.calls w.relay s.tracked)
        (cancelled-Fed w.relay s.sent w.chunks_read a s.fed) (s.fatal ∙ awaits_alive w.relay a)
        (s.errors ∙ awaits_alive w.relay a) s.asserted

  pub start_reader-IsSound :
      (monitors : List Monitor) (stream : OutputStream) (failures : List MonitorFailure)
      → IsSound (start_reader monitors stream failures)
  unfolding start_reader
  start_reader-IsSound monitors stream failures = record {
    sent = [];
    tracked = handles_from-Tracked 0 monitors stream;
    fed = refl;
    fatal = refl;
    errors = refl;
    asserted = refl;
  }

  pub Reach-IsSound : {first w : Reader} → IsSound first → Reach raises first w → IsSound w
  Reach-IsSound s begun = s
  Reach-IsSound s (moved r step) = Step-IsSound step (Reach-IsSound s r)
