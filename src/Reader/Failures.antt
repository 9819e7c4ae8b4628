-- ===== src/Reader/Failures.antt =====
-- A reader (src/flnr/_observatory.py) only ever appends to the shared list of failures.
use flnr.Base.{refl, Bool, true, false, [], ◌∷◌, ◌++◌, if◌then◌else◌, inl, inr}
use flnr.Outcome.{Result-cases}
use flnr.Floats.{PyFloat}
use flnr.Monitors.{eof, error, drain_timeout}
use flnr.Sink.{Bytes, Monitoring, Behaviour, on_data, disable_all}
use flnr.Sink.Failures.{Grew, Grew-refl, Grew-trans, on_data-Grew, disable_all-Grew}
use flnr.Reader.{
  RelayEnd, completed, cancelled, failed, Reader, is_ended, finalize, relay_failed, after_allowed,
  at_eof, after_read, after_drain_wait, Step, monitors_paused, monitors_resumed, drain_is_requested,
  failure_elsewhere, relay_starts, never_started, read_returns, read_raises, callbacks_allowed,
  slept, relay_is_cancelled, drain_seen, drain_wait_ends, relay_gathered, tasks_cancelled,
  drain_is_cancelled,
}

in_both :
    (m : Monitoring) (test : Bool) (v w : Reader)
    → Grew m v.monitoring
    → Grew m w.monitoring
    → Grew m (if test then v else w).monitoring
in_both m true v w a b = a
in_both m false v w a b = b

module _ (raises : Behaviour) where
  finalize-Grew :
      (how : RelayEnd) (ts : PyFloat) (w : Reader)
      → Grew w.monitoring (finalize raises how ts w).monitoring
  unfolding finalize
  finalize-Grew how ts w =
      elim (Result-cases (disable_all raises w.handles error ts w.monitoring)) [
        | inl (exc, e) ↦ rw (e, finalize) (Grew-refl w.monitoring)
        | inr ((hs, m), e) ↦
            rw (e, finalize) (disable_all-Grew raises ts error w.handles w.monitoring hs m e)
      ]

  after_allowed-Grew :
      (chunk : Bytes) (ts now : PyFloat) (w : Reader)
      → Grew w.monitoring (after_allowed raises chunk ts now w).monitoring
  unfolding after_allowed relay_failed
  after_allowed-Grew chunk ts now w =
      elim (Result-cases (on_data raises w.handles chunk ts w.monitoring)) [
        | inl (exc, e) ↦
            rw (e, after_allowed)
              (finalize-Grew failed now (record w { fatal_reader_error = true }))
        | inr ((hs, m), e) ↦
            rw (e, after_allowed) (on_data-Grew raises ts chunk w.handles w.monitoring hs m e)
      ]

  at_eof-Grew :
      (ts now : PyFloat) (w : Reader) → Grew w.monitoring (at_eof raises ts now w).monitoring
  unfolding at_eof relay_failed
  at_eof-Grew ts now w = elim (Result-cases (disable_all raises w.handles eof ts w.monitoring)) [
    | inl (exc, e) ↦
        rw (e, at_eof) (finalize-Grew failed now (record w { fatal_reader_error = true }))
    | inr ((hs, m), e) ↦
        let w' = record w { handles = hs; monitoring = m } in
        rw (e, at_eof)
          (Grew-trans w.monitoring m (finalize raises completed now w').monitoring
            (disable_all-Grew raises ts eof w.handles w.monitoring hs m e)
            (finalize-Grew completed now w'))
  ]

  after_read-Grew :
      (chunk : Bytes) (ts now : PyFloat) (w : Reader)
      → Grew w.monitoring (after_read raises chunk ts now w).monitoring
  unfolding after_read
  after_read-Grew [] ts now w = at_eof-Grew ts now w
  after_read-Grew (b ∷ bs) ts now w =
      in_both w.monitoring w.monitor_callbacks_allowed _ _
        (after_allowed-Grew (b ∷ bs) ts now
          (record w { chunks_read = w.chunks_read ++ (b ∷ bs) ∷ [] }))
        (Grew-refl w.monitoring)

  after_drain_wait-Grew :
      (ts : PyFloat) (w : Reader) → Grew w.monitoring (after_drain_wait raises ts w).monitoring
  unfolding after_drain_wait
  after_drain_wait-Grew ts w =
      elim (Result-cases (disable_all raises w.handles drain_timeout ts w.monitoring)) [
        | inl (exc, e) ↦ rw (e, after_drain_wait) (Grew-refl w.monitoring)
        | inr ((hs, m), e) ↦
            let g = disable_all-Grew raises ts drain_timeout w.handles w.monitoring hs m e in
            rw (e, after_drain_wait) (in_both w.monitoring (is_ended w.relay) _ _ g g)
      ]

  -- Whatever a reader does, no failure is lost from the list, which all tasks of the run share.
  pub Step-Grew : {w v : Reader} → Step raises w v → Grew w.monitoring v.monitoring
  unfolding relay_failed
  Step-Grew (monitors_paused w) = Grew-refl w.monitoring
  Step-Grew (monitors_resumed w) = Grew-refl w.monitoring
  Step-Grew (drain_is_requested w) = Grew-refl w.monitoring
  Step-Grew (failure_elsewhere w f) = (f ∷ [], refl)
  Step-Grew (relay_starts w e c) = Grew-refl w.monitoring
  Step-Grew (never_started w e c) = Grew-refl w.monitoring
  Step-Grew (read_returns w chunk ts now e c) = after_read-Grew chunk ts now w
  Step-Grew (read_raises w now e c) =
      finalize-Grew failed now (record w { read_error = true; fatal_reader_error = true })
  Step-Grew (callbacks_allowed w chunk ts now e c a) = after_allowed-Grew chunk ts now w
  Step-Grew (slept w e c) = Grew-refl w.monitoring
  Step-Grew (relay_is_cancelled w now a c) = finalize-Grew cancelled now w
  Step-Grew (drain_seen w e h) = Grew-refl w.monitoring
  Step-Grew (drain_wait_ends w ts e) = after_drain_wait-Grew ts w
  Step-Grew (relay_gathered w e h) = Grew-refl w.monitoring
  Step-Grew (tasks_cancelled w) = Grew-refl w.monitoring
  Step-Grew (drain_is_cancelled w e h) = Grew-refl w.monitoring
