-- ===== src/EnvMonitor/Runs.antt =====
-- The calls that an environment monitor gets in a run (src/flnr/_observatory.py,
-- src/flnr/_monitor_handles.py), whatever the order of the events and whatever it raises.
use flnr.Base.{
  arith, ℕ, ◌≡◌, refl, sym, subst, Bool, true, false, Option, none, some, List, [], ◌∷◌, ◌++◌,
  if◌then◌else◌, inl, inr,
}
use flnr.Base.Text.{Text}
use flnr.Monitors.{Monitor, MonitorHook, on_start, observe, on_end, PyException, MonitorFailure}
use flnr.EnvMonitor.{
  EnvCall, start_call, observe_call, end_call, FateTask, running, raised, resolved, completed,
  gave_up, fate_raised, cancelled, assertion_failed, EnvPhase, waiting_start, watching,
  waiting_observe, waiting_end, ended, is_ended, EnvWorld, failure_of, fail, Behaviour, start_env,
  call, go_on, after_start_allowed, after_observe_allowed, after_end_allowed, after_watch, EnvStep,
  monitors_paused, monitors_resumed, fate_ends, failure_elsewhere, start_allowed, watch_ends,
  observe_allowed, end_allowed, task_cancelled, EnvReach, begun, moved,
}
use flnr.EnvMonitor.Protocol.{
  EnvStatus, fresh, started, status, next_status, InProtocol, Holds, Grounded, Active, InStep,
}

Holds-last : (f : MonitorFailure) (fs : List MonitorFailure) → Holds f (fs ++ f ∷ [])
Holds-last f [] = inl refl
Holds-last f (g ∷ fs) = inr (Holds-last f fs)

Holds-append :
    (f g : MonitorFailure) (fs : List MonitorFailure) → Holds f fs → Holds f (fs ++ g ∷ [])
Holds-append f g [] h = absurd h
Holds-append f g (k ∷ fs) (inl e) = inl e
Holds-append f g (k ∷ fs) (inr h) = inr (Holds-append f g fs h)

taken : (b : Bool) → b ≡ true → (x y : EnvWorld) → (if b then x else y) ≡ x
taken true e x y = refl
taken false e x y = cc

module _ (raises : Behaviour) where
  -- A call by an active handle, by its two outcomes.
  call-InStep :
      (hook : MonitorHook) (c : EnvCall) (next : Option PyException → EnvPhase) (w : EnvWorld)
      → w.is_active ≡ true
      → InStep (record w { calls = w.calls ++ c ∷ []; phase = next none })
      → ((exc : PyException)
          → InStep (record (fail (record w { calls = w.calls ++ c ∷ [] }) hook exc) {
            phase = next (some exc);
          }))
      → InStep (call raises hook c next w)
  unfolding call
  call-InStep hook c next w e returned failing =
      subst InStep (sym (taken w.is_active e _ _)) (by_outcome (raises (w.calls ++ c ∷ [])))
    where
      by_outcome :
          (o : Option PyException)
          → InStep (elim o [
            | none ↦ record w { calls = w.calls ++ c ∷ []; phase = next none }
            | some exc ↦ record (fail (record w { calls = w.calls ++ c ∷ [] }) hook exc) {
              phase = next (some exc);
            }
          ])
      by_outcome none = returned
      by_outcome (some exc) = failing exc

  -- What is known at a phase.
  at_phase :
      (w : EnvWorld) (p : EnvPhase)
      → w.phase ≡ p
      → InStep w
      → InProtocol p (status w.calls) × Grounded p w × Active p w.is_active
  at_phase w p e s = (
    subst (λ q. InProtocol q (status w.calls)) e s.protocol,
    subst (λ q. Grounded q w) e s.grounded,
    subst (λ q. Active q w.is_active) e s.active,
  )

  -- A callback after which the task watches on, or gives up.
  go_on-InStep :
      (hook : MonitorHook) (c : EnvCall) (w : EnvWorld)
      → w.is_active ≡ true
      → status (w.calls ++ c ∷ []) ≡ started
      → InStep (call raises hook c (go_on raises hook) w)
  unfolding fail
  go_on-InStep hook c w active e =
      call-InStep hook c (go_on raises hook) w active
        (record { protocol = e; grounded = tt; active = active })
        (λ exc. record {
          protocol = e;
          grounded = Holds-last (failure_of w hook exc) w.monitor_failures;
          active = tt;
        })

  after_watch-InStep :
      (w : EnvWorld) → w.phase ≡ watching → InStep w → InStep (after_watch raises w)
  unfolding after_watch
  after_watch-InStep w e s = let (p, g, a) = at_phase w watching e s in by_fate p a w.fate_task refl
    where
      by_fate :
          status w.calls ≡ started
          → w.is_active ≡ true
          → (t : FateTask) → w.fate_task ≡ t
          → InStep (elim t [
            | running ↦ record w { phase = waiting_observe }
            | raised ↦ record w { phase = ended fate_raised }
            | resolved fate ↦ record w { phase = waiting_end fate }
          ])
      by_fate p a running k = record { protocol = p; grounded = tt; active = a }
      by_fate p a raised k = record { protocol = p; grounded = k; active = tt }
      by_fate p a (resolved fate) k = record { protocol = p; grounded = k; active = a }

  cancelled_early :
      (p : EnvPhase) (s : EnvStatus)
      → is_ended p ≡ false
      → InProtocol p s
      → InProtocol (ended cancelled) s
  cancelled_early waiting_start s e h = inl h
  cancelled_early watching s e h = inr h
  cancelled_early waiting_observe s e h = inr h
  cancelled_early (waiting_end fate) s e h = inr h
  cancelled_early (ended how) s e h = cc

  -- The fate's task ends while it runs, so no phase had its fate yet.
  fate_later :
      (p : EnvPhase) (w : EnvWorld) (t : FateTask)
      → w.fate_task ≡ running
      → Grounded p w
      → Grounded p (record w { fate_task = t })
  fate_later waiting_start w t e g = tt
  fate_later watching w t e g = tt
  fate_later waiting_observe w t e g = tt
  fate_later (waiting_end fate) w t e g = cc
  fate_later (ended (completed fate)) w t e g = cc
  fate_later (ended (gave_up hook exc)) w t e g = g
  fate_later (ended fate_raised) w t e g = cc
  fate_later (ended cancelled) w t e g = tt
  fate_later (ended assertion_failed) w t e g = tt

  more_failures :
      (p : EnvPhase) (w : EnvWorld) (f : MonitorFailure)
      → Grounded p w
      → Grounded p (record w { monitor_failures = w.monitor_failures ++ f ∷ [] })
  more_failures waiting_start w f g = tt
  more_failures watching w f g = tt
  more_failures waiting_observe w f g = tt
  more_failures (waiting_end fate) w f g = g
  more_failures (ended (completed fate)) w f g = g
  more_failures (ended (gave_up hook exc)) w f g =
      Holds-append (failure_of w hook exc) f w.monitor_failures g
  more_failures (ended fate_raised) w f g = g
  more_failures (ended cancelled) w f g = tt
  more_failures (ended assertion_failed) w f g = tt

  paused_or_resumed :
      (p : EnvPhase) (w : EnvWorld) (b : Bool)
      → Grounded p w
      → Grounded p (record w { monitor_callbacks_allowed = b })
  paused_or_resumed waiting_start w b g = tt
  paused_or_resumed watching w b g = tt
  paused_or_resumed waiting_observe w b g = tt
  paused_or_resumed (waiting_end fate) w b g = g
  paused_or_resumed (ended (completed fate)) w b g = g
  paused_or_resumed (ended (gave_up hook exc)) w b g = g
  paused_or_resumed (ended fate_raised) w b g = g
  paused_or_resumed (ended cancelled) w b g = tt
  paused_or_resumed (ended assertion_failed) w b g = tt

  pub EnvStep-InStep : {w v : EnvWorld} → EnvStep raises w v → InStep w → InStep v
  unfolding after_start_allowed after_observe_allowed after_end_allowed fail
  EnvStep-InStep (monitors_paused w) s = record {
    protocol = s.protocol;
    grounded = paused_or_resumed w.phase w false s.grounded;
    active = s.active;
  }
  EnvStep-InStep (monitors_resumed w) s = record {
    protocol = s.protocol;
    grounded = paused_or_resumed w.phase w true s.grounded;
    active = s.active;
  }
  EnvStep-InStep (fate_ends w t e) s = record {
    protocol = s.protocol;
    grounded = fate_later w.phase w t e s.grounded;
    active = s.active;
  }
  EnvStep-InStep (failure_elsewhere w f) s = record {
    protocol = s.protocol;
    grounded = more_failures w.phase w f s.grounded;
    active = s.active;
  }
  EnvStep-InStep (start_allowed w e h) s =
      let (p, g, a) = at_phase w waiting_start e s in
      go_on-InStep on_start (start_call w.pid w.cmd) w a (next_status w.calls _ fresh p)
  EnvStep-InStep (watch_ends w e) s = after_watch-InStep w e s
  EnvStep-InStep (observe_allowed w e h) s =
      let (p, g, a) = at_phase w waiting_observe e s in
      go_on-InStep observe (observe_call w.pid) w a (next_status w.calls _ started p)
  EnvStep-InStep (end_allowed w fate e h) s =
      let (p, g, a) = at_phase w (waiting_end fate) e s in
      let told = next_status w.calls (end_call fate) started p in
      call-InStep on_end (end_call fate) (λ failed. ended (completed fate)) w a
        (record { protocol = told; grounded = g; active = tt })
        (λ exc. record { protocol = told; grounded = g; active = tt })
  EnvStep-InStep (task_cancelled w e) s = record {
    protocol = cancelled_early w.phase (status w.calls) e s.protocol;
    grounded = tt;
    active = tt;
  }

  pub EnvReach-InStep :
      (pid : ℕ) (cmd : List Text) (monitor : Monitor) (index : ℕ) (failures : List MonitorFailure)
      (w : EnvWorld)
      → EnvReach raises (start_env pid cmd monitor index failures) w
      → InStep w
  unfolding start_env
  EnvReach-InStep pid cmd monitor index failures w begun = record {
    protocol = refl;
    grounded = tt;
    active = refl;
  }
  EnvReach-InStep pid cmd monitor index failures w (moved {w = v} r step) =
      EnvStep-InStep step (EnvReach-InStep pid cmd monitor index failures v r)

  after_watch_calls : (w : EnvWorld) → (after_watch raises w).calls ≡ w.calls
  unfolding after_watch
  after_watch_calls w = ground arith

  -- While the monitor callbacks are paused, no move calls the monitor.
  pub paused_calls :
      {w v : EnvWorld}
      → EnvStep raises w v
      → w.monitor_callbacks_allowed ≡ false
      → v.calls ≡ w.calls
  paused_calls (monitors_paused w) paused = refl
  paused_calls (monitors_resumed w) paused = refl
  paused_calls (fate_ends w t e) paused = refl
  paused_calls (failure_elsewhere w f) paused = refl
  paused_calls (start_allowed w e h) paused = cc
  paused_calls (watch_ends w e) paused = after_watch_calls w
  paused_calls (observe_allowed w e h) paused = cc
  paused_calls (end_allowed w fate e h) paused = cc
  paused_calls (task_cancelled w e) paused = refl
