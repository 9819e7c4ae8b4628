-- ===== src/Reader/Delivery.antt =====
-- What the monitors of one stream get in a run of its reader (src/flnr/_observatory.py).
use flnr.Base.{
  ℕ, ◌≡◌, ◌≢◌, ◌↔◌, refl, sym, ap, ◌∙◌, subst, Bool, true, false, List, [], ◌∷◌, if◌then◌else◌, inl,
  inr,
}
use flnr.Outcome.{Result-cases}
use flnr.Floats.{PyFloat}
use flnr.Monitors.{Monitor, MonitorFailure, OutputStream, eof, error, drain_timeout}
use flnr.Sink.{Bytes, Behaviour, disable_all}
use flnr.Sink.Calls.{received}
use flnr.Sink.Loop.{Tracked}
use flnr.Sink.Received.{disable_all-received}
use flnr.Reader.{
  RelayEnd, completed, cancelled, failed, unstarted, RelayPhase, created, yielding, reading,
  holding, ended, assertion_failed, Reader, is_ended, start_reader, finalize, relay_failed, at_eof,
  after_read, after_drain_wait, Step, monitors_paused, monitors_resumed, drain_is_requested,
  failure_elsewhere, relay_starts, never_started, read_returns, read_raises, callbacks_allowed,
  slept, relay_is_cancelled, drain_seen, drain_wait_ends, relay_gathered, tasks_cancelled,
  drain_is_cancelled, Reach,
}
use flnr.Reader.Invariant.{IsSound, Kept, is_failed, is_assertion}
use flnr.Reader.Runs.{start_reader-IsSound, Reach-IsSound}
use flnr.Reader.Drain.{AllTold}

is_failed_iff : (p : RelayPhase) → (p ≡ ended failed) ↔ (is_failed p ≡ true)
is_failed_iff created = (λ e. cc, λ e. cc)
is_failed_iff reading = (λ e. cc, λ e. cc)
is_failed_iff yielding = (λ e. cc, λ e. cc)
is_failed_iff (holding chunk ts) = (λ e. cc, λ e. cc)
is_failed_iff (ended completed) = (λ e. cc, λ e. cc)
is_failed_iff (ended cancelled) = (λ e. cc, λ e. cc)
is_failed_iff (ended failed) = (λ e. refl, λ e. refl)
is_failed_iff (ended unstarted) = (λ e. cc, λ e. cc)

true_ne_false : true ≢ false
true_ne_false e = cc

module _ (raises : Behaviour) (monitors : List Monitor) (stream : OutputStream)
    (failures : List MonitorFailure) (w : Reader)
    (run : Reach raises (start_reader monitors stream failures) w) where
  sound : IsSound w
  sound = Reach-IsSound raises (start_reader-IsSound raises monitors stream failures) run

  -- A relay that ran and is over, however it ended, has told every monitor once that it is
  -- disabled.
  pub ended-AllTold : (how : RelayEnd) → w.relay ≡ ended how → how ≢ unstarted → AllTold w
  ended-AllTold completed e ne = (
    sound.sent,
    subst (λ p. Tracked (Kept p sound.sent) 0 w.handles w.monitoring.calls) e sound.tracked,
  )
  ended-AllTold cancelled e ne = (
    sound.sent,
    subst (λ p. Tracked (Kept p sound.sent) 0 w.handles w.monitoring.calls) e sound.tracked,
  )
  ended-AllTold failed e ne = (
    sound.sent,
    subst (λ p. Tracked (Kept p sound.sent) 0 w.handles w.monitoring.calls) e sound.tracked,
  )
  ended-AllTold unstarted e ne = absurd (ne refl)

  -- Whatever the callbacks raise, the relay fails only when a read of the stream raised, it sets
  -- the fatal event exactly then, and no assertion of the drain controller fails.
  pub failed_iff_read_error :
      ((w.relay ≡ ended failed) ↔ (w.read_error ≡ true))
      × (w.fatal_reader_error ≡ w.read_error)
      × (w.drain ≢ assertion_failed)
  failed_iff_read_error =
      let (there, back) = is_failed_iff w.relay in
      (
        (λ e. sound.errors ∙ there e, λ e. back (sym sound.errors ∙ e)),
        sound.fatal ∙ sym sound.errors,
        λ e. absurd (true_ne_false (sym (ap is_assertion e) ∙ sound.asserted)),
      )

module _ (raises : Behaviour) (i : ℕ) where
  finalize-received :
      (how : RelayEnd) (ts : PyFloat) (w : Reader)
      → received i (finalize raises how ts w).monitoring.calls ≡ received i w.monitoring.calls
  unfolding finalize
  finalize-received how ts w =
      elim (Result-cases (disable_all raises w.handles error ts w.monitoring)) [
        | inl (exc, e) ↦ rw (e, finalize) refl
        | inr ((hs, m), e) ↦
            rw (e, finalize) (disable_all-received i raises error ts w.handles w.monitoring hs m e)
      ]

  at_eof-received :
      (ts now : PyFloat) (w : Reader)
      → received i (at_eof raises ts now w).monitoring.calls ≡ received i w.monitoring.calls
  unfolding at_eof relay_failed
  at_eof-received ts now w =
      elim (Result-cases (disable_all raises w.handles eof ts w.monitoring)) [
        | inl (exc, e) ↦
            rw (e, at_eof) (finalize-received failed now (record w { fatal_reader_error = true }))
        | inr ((hs, m), e) ↦
            rw (e, at_eof)
              (finalize-received completed now (record w { handles = hs; monitoring = m })
                ∙ disable_all-received i raises eof ts w.handles w.monitoring hs m e)
      ]

  after_drain_wait-received :
      (ts : PyFloat) (w : Reader)
      → received i (after_drain_wait raises ts w).monitoring.calls ≡ received i w.monitoring.calls
  unfolding after_drain_wait
  after_drain_wait-received ts w =
      elim (Result-cases (disable_all raises w.handles drain_timeout ts w.monitoring)) [
        | inl (exc, e) ↦ rw (e, after_drain_wait) refl
        | inr ((hs, m), e) ↦
            rw (e, after_drain_wait)
              (either_way (is_ended w.relay) _ _
                (disable_all-received i raises drain_timeout ts w.handles w.monitoring hs m e)
                (disable_all-received i raises drain_timeout ts w.handles w.monitoring hs m e))
      ]
    where
      either_way :
          {chunks : List Bytes} (test : Bool) (x y : Reader)
          → received i x.monitoring.calls ≡ chunks
          → received i y.monitoring.calls ≡ chunks
          → received i (if test then x else y).monitoring.calls ≡ chunks
      either_way true x y a b = a
      either_way false x y a b = b

  after_read-received :
      (chunk : Bytes) (ts now : PyFloat) (w : Reader)
      → w.monitor_callbacks_allowed ≡ false
      → received i (after_read raises chunk ts now w).monitoring.calls
        ≡ received i w.monitoring.calls
  unfolding after_read
  after_read-received [] ts now w paused = at_eof-received ts now w
  after_read-received (b ∷ bs) ts now w paused =
      ap (λ r. received i r.monitoring.calls) (not_taken w.monitor_callbacks_allowed paused _ _)
    where
      not_taken : (test : Bool) → test ≡ false → (x y : Reader) → (if test then x else y) ≡ y
      not_taken true h x y = cc
      not_taken false h x y = refl

  -- While the monitor callbacks are paused, no move gives a monitor any data.
  pub paused-received :
      {w v : Reader}
      → Step raises w v
      → w.monitor_callbacks_allowed ≡ false
      → received i v.monitoring.calls ≡ received i w.monitoring.calls
  unfolding relay_failed
  paused-received (monitors_paused w) paused = refl
  paused-received (monitors_resumed w) paused = refl
  paused-received (drain_is_requested w) paused = refl
  paused-received (failure_elsewhere w f) paused = refl
  paused-received (relay_starts w e c) paused = refl
  paused-received (never_started w e c) paused = refl
  paused-received (read_returns w chunk ts now e c) paused =
      after_read-received chunk ts now w paused
  paused-received (read_raises w now e c) paused =
      finalize-received failed now (record w { read_error = true; fatal_reader_error = true })
  paused-received (callbacks_allowed w chunk ts now e c a) paused =
      absurd (true_ne_false (sym a ∙ paused))
  paused-received (slept w e c) paused = refl
  paused-received (relay_is_cancelled w now a c) paused = finalize-received cancelled now w
  paused-received (drain_seen w e h) paused = refl
  paused-received (drain_wait_ends w ts e) paused = after_drain_wait-received ts w
  paused-received (relay_gathered w e h) paused = refl
  paused-received (tasks_cancelled w) paused = refl
  paused-received (drain_is_cancelled w e h) paused = refl
