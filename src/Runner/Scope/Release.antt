-- ===== src/Runner/Scope/Release.antt =====
-- Every way out of a run gives its resources back (src/flnr/flnr.py), but for one.
use flnr.Base.{ℕ, ◌≡◌, ◌≢◌, ◌↔◌, refl, Bool, true, false, Option, none, some, List, [], ◌∷◌}
use flnr.Runner.Scope.{
  Raised, an_exception, base_exception, Binding, not_attached, attached, deactivated, Child,
  not_started, started, killed, kill_child, ScopeTask, TaskState, task_cancelled, Scope, Calls,
  new_scope, create_tasks, ainit, cancel_all, release, acleanup, aenter, RunEnd, run_ex_async,
}

abbrev pub AreCancelled : List (ScopeTask × TaskState) → Type 0
AreCancelled [] = Unit
AreCancelled ((t, state) ∷ tasks) = (state ≡ task_cancelled) × AreCancelled tasks

-- Nothing is held: the binding is not attached, the child does not run unkilled, and every task
-- has been cancelled.
pub record IsReleased (s : Scope) : Type 0 where
  pub binding : s.host_termination_binding ≢ attached
  pub child : s.process ≢ started
  pub tasks : AreCancelled s.tasks

-- The start of the process is interrupted by what is no `Exception`.
abbrev pub is_interrupted : Calls → Bool
is_interrupted c = elim c.attach [
  | some e ↦ false
  | none ↦ elim c.start_process [ some base_exception ↦ true | _ ↦ false ]
]

cancel_all-AreCancelled : (tasks : List (ScopeTask × TaskState)) → AreCancelled (cancel_all tasks)
unfolding cancel_all
cancel_all-AreCancelled [] = tt
cancel_all-AreCancelled ((t, state) ∷ tasks) = (refl, cancel_all-AreCancelled tasks)

not_running : (p : Child) → kill_child p ≢ started
not_running not_started e = cc
not_running started e = cc
not_running killed e = cc

release-IsReleased : (s : Scope) → s.host_termination_binding ≢ attached → IsReleased (release s)
unfolding release
release-IsReleased s ne = record {
  binding = ne;
  child = not_running s.process;
  tasks = cancel_all-AreCancelled s.tasks;
}

acleanup-IsReleased : (c : Calls) (s : Scope) → IsReleased (acleanup c s).0
unfolding acleanup
acleanup-IsReleased c s = by_binding s.host_termination_binding refl
  where
    by_binding :
        (b : Binding)
        → s.host_termination_binding ≡ b
        → IsReleased
            (elim b as (λ x. Scope × Option Raised) [
              | attached ↦
                  (release (record s { host_termination_binding = deactivated }), c.deactivate)
              | _ ↦ (release s, none)
            ]).0
    by_binding not_attached e = release-IsReleased s (λ e'. cc)
    by_binding attached e =
        release-IsReleased (record s { host_termination_binding = deactivated }) (λ e'. cc)
    by_binding deactivated e = release-IsReleased s (λ e'. cc)

new_scope-IsReleased : IsReleased new_scope
unfolding new_scope
new_scope-IsReleased = record { binding = λ e. cc; child = λ e. cc; tasks = tt }

abbrev calls_of : Option Raised → Option Raised → Option Raised → Bool → Bool → ℕ → Calls
calls_of a p d so se n = record {
  attach = a;
  start_process = p;
  deactivate = d;
  has_stdout = so;
  has_stderr = se;
  environment_monitors = n;
}

abbrev bound : Scope
bound = record { host_termination_binding = attached; process = not_started; tasks = [] }

by_start :
    (a p d : Option Raised) (so se : Bool) (n : ℕ) (body : RunEnd)
    → IsReleased (run_ex_async (calls_of a p d so se n) body).0
      ↔ (is_interrupted (calls_of a p d so se n) ≡ false)
unfolding run_ex_async aenter ainit new_scope
by_start (some (an_exception e)) p d so se n body =
    (λ r. refl, λ h. acleanup-IsReleased (calls_of (some (an_exception e)) p d so se n) new_scope)
by_start (some base_exception) p d so se n body = (λ r. refl, λ h. new_scope-IsReleased)
by_start none (some (an_exception e)) d so se n body =
    (λ r. refl, λ h. acleanup-IsReleased (calls_of none (some (an_exception e)) d so se n) bound)
by_start none (some base_exception) d so se n body = (λ r. absurd (r.binding refl), λ h. cc)
by_start none none d so se n body = (
  λ r. refl,
  λ h.
      acleanup-IsReleased (calls_of none none d so se n)
        (create_tasks (calls_of none none d so se n) (record bound { process = started })),
)

-- Whatever the calls raise and however the block of the run ends, a run leaves the binding
-- deactivated or never attached, the child killed or never started, and every task cancelled,
-- unless the start of the process is interrupted by what is no `Exception`: then the binding
-- stays attached.
pub run_ex_async-IsReleased :
    (c : Calls) (body : RunEnd) → IsReleased (run_ex_async c body).0 ↔ (is_interrupted c ≡ false)
run_ex_async-IsReleased c body =
    by_start c.attach c.start_process c.deactivate c.has_stdout c.has_stderr c.environment_monitors
      body
