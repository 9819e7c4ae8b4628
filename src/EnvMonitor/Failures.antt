-- ===== src/EnvMonitor/Failures.antt =====
-- An environment monitor (src/flnr/_monitor_handles.py) only ever appends to the shared list of
-- failures.
use flnr.Base.{
  ◌≡◌, refl, sym, Bool, true, false, Option, none, some, List, [], ◌∷◌, ◌++◌, append-nil,
  if◌then◌else◌, arith,
}
use flnr.Monitors.{MonitorHook, on_start, observe, on_end, PyException, MonitorFailure}
use flnr.EnvMonitor.{
  EnvCall, start_call, observe_call, end_call, FateTask, running, raised, resolved, EnvPhase,
  waiting_observe, waiting_end, fate_raised, assertion_failed, completed, ended, EnvWorld, fail,
  Behaviour, call, go_on, after_start_allowed, after_observe_allowed, after_end_allowed,
  after_watch, EnvStep, monitors_paused, monitors_resumed, fate_ends, failure_elsewhere,
  start_allowed, watch_ends, observe_allowed, end_allowed, task_cancelled, is_own_env,
}

abbrev pub FailuresGrew : EnvWorld → EnvWorld → Type 0
FailuresGrew w v = (new : List MonitorFailure) × (v.monitor_failures ≡ w.monitor_failures ++ new)

same : (w : EnvWorld) → FailuresGrew w w
same w = ([], sym (append-nil w.monitor_failures))

module _ (raises : Behaviour) where
  call-FailuresGrew :
      (hook : MonitorHook) (c : EnvCall) (next : Option PyException → EnvPhase) (w : EnvWorld)
      → FailuresGrew w (call raises hook c next w)
  unfolding call fail
  call-FailuresGrew hook c next w = by_test w.is_active (raises (w.calls ++ c ∷ []))
    where
      by_test :
          (b : Bool) (o : Option PyException)
          → FailuresGrew w (
              if b
              then (let w' = record w { calls = w.calls ++ c ∷ [] } in
                  elim o [
                    | none ↦ record w' { phase = next none }
                    | some exc ↦ record (fail w' hook exc) { phase = next (some exc) }
                  ])
              else record w { phase = ended assertion_failed })
      by_test true none = ([], sym (append-nil w.monitor_failures))
      by_test true (some exc) = (_, refl)
      by_test false o = ([], sym (append-nil w.monitor_failures))

  after_watch-FailuresGrew : (w : EnvWorld) → FailuresGrew w (after_watch raises w)
  unfolding after_watch
  after_watch-FailuresGrew w = by_task w.fate_task
    where
      by_task :
          (t : FateTask)
          → FailuresGrew w (elim t [
            | running ↦ record w { phase = waiting_observe }
            | raised ↦ record w { phase = ended fate_raised }
            | resolved fate ↦ record w { phase = waiting_end fate }
          ])
      by_task running = ([], sym (append-nil w.monitor_failures))
      by_task raised = ([], sym (append-nil w.monitor_failures))
      by_task (resolved fate) = ([], sym (append-nil w.monitor_failures))

  -- Whatever an environment monitor does, no failure is lost from the shared list.
  pub EnvStep-FailuresGrew : {w v : EnvWorld} → EnvStep raises w v → FailuresGrew w v
  unfolding after_start_allowed after_observe_allowed after_end_allowed
  EnvStep-FailuresGrew (monitors_paused w) = same w
  EnvStep-FailuresGrew (monitors_resumed w) = same w
  EnvStep-FailuresGrew (fate_ends w t e) = same w
  EnvStep-FailuresGrew (failure_elsewhere w f) = (f ∷ [], refl)
  EnvStep-FailuresGrew (start_allowed w e h) =
      call-FailuresGrew on_start (start_call w.pid w.cmd) (go_on raises on_start) w
  EnvStep-FailuresGrew (watch_ends w e) = after_watch-FailuresGrew w
  EnvStep-FailuresGrew (observe_allowed w e h) =
      call-FailuresGrew observe (observe_call w.pid) (go_on raises observe) w
  EnvStep-FailuresGrew (end_allowed w fate e h) =
      call-FailuresGrew on_end (end_call fate) (λ failed. ended (completed fate)) w
  EnvStep-FailuresGrew (task_cancelled w e) = same w

call_fate :
    (raises : Behaviour) (hook : MonitorHook) (c : EnvCall) (next : Option PyException → EnvPhase)
    (w : EnvWorld)
    → (call raises hook c next w).fate_task ≡ w.fate_task
unfolding call fail
call_fate raises hook c next w = ground arith

watch_fate : (raises : Behaviour) (w : EnvWorld) → (after_watch raises w).fate_task ≡ w.fate_task
unfolding after_watch
watch_fate raises w = ground arith

-- The task itself does not change what it waits for.
pub own_keeps_fate :
    {raises : Behaviour} {w v : EnvWorld} (step : EnvStep raises w v)
    → is_own_env raises step ≡ true
    → v.fate_task ≡ w.fate_task
unfolding after_start_allowed after_observe_allowed after_end_allowed
own_keeps_fate (monitors_paused w) own = cc
own_keeps_fate (monitors_resumed w) own = cc
own_keeps_fate (fate_ends w t e) own = cc
own_keeps_fate (failure_elsewhere w f) own = cc
own_keeps_fate {raises} (start_allowed w e h) own =
    call_fate raises on_start (start_call w.pid w.cmd) (go_on raises on_start) w
own_keeps_fate {raises} (watch_ends w e) own = watch_fate raises w
own_keeps_fate {raises} (observe_allowed w e h) own =
    call_fate raises observe (observe_call w.pid) (go_on raises observe) w
own_keeps_fate {raises} (end_allowed w fate e h) own =
    call_fate raises on_end (end_call fate) (λ failed. ended (completed fate)) w
own_keeps_fate (task_cancelled w e) own = refl
