-- ===== src/EnvMonitor/Protocol.antt =====
-- The protocol of an environment monitor, and what holds at each await of its task
-- (src/flnr/_observatory.py, src/flnr/_monitor_handles.py).
use flnr.Base.{◌≡◌, ◌⊎◌, refl, ap, ◌∙◌, Bool, true, List, [], ◌∷◌, ◌++◌}
use flnr.Fate.{ProcessFate}
use flnr.Monitors.{MonitorFailure}
use flnr.EnvMonitor.{
  EnvCall, start_call, observe_call, end_call, raised, resolved, completed, gave_up, fate_raised,
  cancelled, assertion_failed, EnvPhase, waiting_start, waiting_end, ended, EnvWorld, failure_of,
}

-- The protocol: `on_start`, then any number of `observe`, then `on_end`.
pub data EnvStatus : Type 0 where
  fresh started violated : EnvStatus
  closed : ProcessFate → EnvStatus

abbrev pub after_call : EnvStatus → EnvCall → EnvStatus
after_call fresh (start_call pid cmd) = started
after_call started (observe_call pid) = started
after_call started (end_call fate) = closed fate
after_call _ _ = violated

abbrev pub status_from : EnvStatus → List EnvCall → EnvStatus
status_from s [] = s
status_from s (c ∷ cs) = status_from (after_call s c) cs

abbrev pub status : List EnvCall → EnvStatus
status log = status_from fresh log

status_from-append :
    (s : EnvStatus) (log : List EnvCall) (c : EnvCall)
    → status_from s (log ++ c ∷ []) ≡ after_call (status_from s log) c
status_from-append s [] c = refl
status_from-append s (d ∷ log) c = status_from-append (after_call s d) log c

pub next_status :
    (log : List EnvCall) (c : EnvCall) (s : EnvStatus)
    → status log ≡ s
    → status (log ++ c ∷ []) ≡ after_call s c
next_status log c s e = status_from-append fresh log c ∙ ap (λ t. after_call t c) e

-- What the log shows at each await and each end.
abbrev pub InProtocol : EnvPhase → EnvStatus → Type 0
InProtocol waiting_start s = s ≡ fresh
InProtocol (ended (completed fate)) s = s ≡ closed fate
InProtocol (ended cancelled) s = (s ≡ fresh) ⊎ (s ≡ started)
InProtocol (ended assertion_failed) s = ⊥
InProtocol _ s = s ≡ started

-- The failure is in the list.
abbrev pub Holds : MonitorFailure → List MonitorFailure → Type 0
Holds f [] = ⊥
Holds f (g ∷ fs) = (f ≡ g) ⊎ Holds f fs

-- The fate that is passed on is that of its task; a callback that made the task give up is recorded.
abbrev pub Grounded : EnvPhase → EnvWorld → Type 0
Grounded (waiting_end fate) w = w.fate_task ≡ resolved fate
Grounded (ended (completed fate)) w = w.fate_task ≡ resolved fate
Grounded (ended (gave_up hook exc)) w = Holds (failure_of w hook exc) w.monitor_failures
Grounded (ended fate_raised) w = w.fate_task ≡ raised
Grounded _ w = Unit

-- A handle is active until its task is over.
abbrev pub Active : EnvPhase → Bool → Type 0
Active (ended how) b = Unit
Active _ b = b ≡ true

pub record InStep (w : EnvWorld) : Type 0 where
  pub protocol : InProtocol w.phase (status w.calls)
  pub grounded : Grounded w.phase w
  pub active : Active w.phase w.is_active
