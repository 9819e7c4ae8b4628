-- ===== src/Lifecycle/Invariant.antt =====
-- What holds at every moment of `_resolve_process_fate` (src/flnr/_echafaud.py).
use flnr.Base.{
  ◌≡◌, ◌≢◌, ◌⊎◌, inl, inr, refl, subst, Bool, true, false, Option, none, some, List, [], ◌∷◌, ◌++◌,
  is_some, arith,
}
use flnr.Floats.{PyFloat}
use flnr.Fate.{
  ProcessTerminationDecision, no_intervention, timeout, external_request, internal_failure,
  ProcessTerminationMethod, method_none, terminate, kill, ProcessFate,
}
use flnr.Lifecycle.{
  Signal, sigterm, sigkill, running, finished, raised, Phase, watching, terminating, confirming,
  resolved, failed, World, is_done, start, Wakes, by_exit, by_reader, by_request, by_timeout, Step,
  child_exits, reader_fails, host_requests, exit_seen, exit_task_raises, failure_seen, request_seen,
  first_wait_returns, terminate_raises, grace_ends, grace_expires, confirmation_ends,
  confirmation_expires, Reach, begun, moved, after_first_wait, after_terminate_error,
  after_exit_in_grace, after_grace_expired, after_exit_confirmed, after_confirmation_expired,
}

-- Why the decision was taken.
abbrev pub Reason : Option PyFloat → World → ProcessTerminationDecision → Type 0
Reason run w no_intervention = is_done w.process_exit_task ≡ true
Reason run w timeout = is_some run ≡ true
Reason run w external_request = w.ext_termination_request ≡ true
Reason run w internal_failure = w.fatal_reader_error ≡ true

-- After `before`, a kill was sent, or was not needed.
abbrev pub Killed : World → List Signal → Type 0
Killed w before =
    (w.signals ≡ before ++ sigkill ∷ []) ⊎ ((w.signals ≡ before) × (is_some w.returncode ≡ true))

-- The signals that go with a decision and a method; the other pairs do not occur.
abbrev pub Enforced : World → ProcessTerminationDecision → ProcessTerminationMethod → Type 0
Enforced w no_intervention method_none = w.signals ≡ []
Enforced w internal_failure kill = Killed w []
Enforced w timeout terminate = w.signals ≡ sigterm ∷ []
Enforced w timeout kill = Killed w (sigterm ∷ [])
Enforced w external_request terminate = w.signals ≡ sigterm ∷ []
Enforced w external_request kill = Killed w (sigterm ∷ [])
Enforced w _ _ = ⊥

abbrev pub IsTermination : ProcessTerminationDecision → Type 0
IsTermination timeout = Unit
IsTermination external_request = Unit
IsTermination _ = ⊥

-- The return code of a fate: that of the child, or none where the exit was not seen in time.
abbrev pub Observed : World → ProcessFate → Type 0
Observed w f =
    ((f.returncode ≡ w.returncode) × (is_some w.returncode ≡ true))
    ⊎ ((f.returncode ≡ none) × (f.termination_decision ≢ no_intervention))

abbrev pub SoundAt : Option PyFloat → World → Phase → Type 0
SoundAt run w watching =
    (w.monitor_callbacks_allowed ≡ true) × (w.tasks_cancelled ≡ false) × (w.signals ≡ [])
SoundAt run w (terminating d) =
    (w.monitor_callbacks_allowed ≡ true)
    × (w.tasks_cancelled ≡ false)
    × (w.signals ≡ sigterm ∷ [])
    × IsTermination d
    × Reason run w d
SoundAt run w (confirming d m) =
    (w.monitor_callbacks_allowed ≡ false)
    × (w.tasks_cancelled ≡ false)
    × Enforced w d m
    × Reason run w d
SoundAt run w (resolved f) =
    (w.monitor_callbacks_allowed ≡ true)
    × (w.tasks_cancelled ≡ true)
    × Enforced w f.termination_decision f.termination_method
    × Reason run w f.termination_decision
    × Observed w f
SoundAt run w failed =
    (w.monitor_callbacks_allowed ≡ true)
    × (w.tasks_cancelled ≡ true)
    × ((w.process_exit_task ≡ raised) ⊎ (is_some w.returncode ≡ true))

-- The tasks that ended saw what they wait for.
pub record IsSound (run : Option PyFloat) (w : World) : Type 0 where
  pub exit_known : w.process_exit_task ≡ finished → is_some w.returncode ≡ true
  pub failure_known : w.fatal_reader_error_done ≡ true → w.fatal_reader_error ≡ true
  pub request_known : w.ext_termination_request_done ≡ true → w.ext_termination_request ≡ true
  pub at_phase : SoundAt run w w.phase

-- What the moves outside the coroutine may do to what the phases speak of.
record Grows (w w' : World) : Type 0 where
  signals : w'.signals ≡ w.signals
  callbacks : w'.monitor_callbacks_allowed ≡ w.monitor_callbacks_allowed
  cancelled : w'.tasks_cancelled ≡ w.tasks_cancelled
  code : (w'.returncode ≡ w.returncode) ⊎ ((w.returncode ≡ none) × (is_some w'.returncode ≡ true))
  exit_task : (w'.process_exit_task ≡ w.process_exit_task) ⊎ (w.process_exit_task ≡ running)
  request : w.ext_termination_request ≡ true → w'.ext_termination_request ≡ true
  failure : w.fatal_reader_error ≡ true → w'.fatal_reader_error ≡ true

module _ (run : Option PyFloat) (w w' : World) (g : Grows w w') where
  Reason-Grows : (d : ProcessTerminationDecision) → Reason run w d → Reason run w' d
  Reason-Grows no_intervention h = ground arith
  Reason-Grows timeout h = h
  Reason-Grows external_request h = g.request h
  Reason-Grows internal_failure h = g.failure h

  Killed-Grows : (before : List Signal) → Killed w before → Killed w' before
  Killed-Grows before (inl h) = inl (rw g.signals h)
  Killed-Grows before (inr (h, c)) = inr (rw g.signals h, ground arith)

  Enforced-Grows :
      (d : ProcessTerminationDecision) (m : ProcessTerminationMethod)
      → Enforced w d m
      → Enforced w' d m
  Enforced-Grows no_intervention method_none h = rw g.signals h
  Enforced-Grows internal_failure kill h = Killed-Grows [] h
  Enforced-Grows timeout terminate h = rw g.signals h
  Enforced-Grows timeout kill h = Killed-Grows (sigterm ∷ []) h
  Enforced-Grows external_request terminate h = rw g.signals h
  Enforced-Grows external_request kill h = Killed-Grows (sigterm ∷ []) h
  Enforced-Grows _ _ h = absurd h

  Observed-Grows : (f : ProcessFate) → Observed w f → Observed w' f
  Observed-Grows f (inl (h, c)) = inl (ground arith, ground arith)
  Observed-Grows f (inr h) = inr h

  SoundAt-Grows : (p : Phase) → SoundAt run w p → SoundAt run w' p
  SoundAt-Grows watching (a, b, c) = rw (g.callbacks, g.cancelled, g.signals) (a, b, c)
  SoundAt-Grows (terminating d) (a, b, c, t, r) =
      rw (g.callbacks, g.cancelled, g.signals) (a, b, c, t, Reason-Grows d r)
  SoundAt-Grows (confirming d m) (a, b, e, r) =
      rw (g.callbacks, g.cancelled) (a, b, Enforced-Grows d m e, Reason-Grows d r)
  SoundAt-Grows (resolved f) (a, b, e, r, o) =
      rw (g.callbacks, g.cancelled)
        (
          a,
          b,
          Enforced-Grows f.termination_decision f.termination_method e,
          Reason-Grows f.termination_decision r,
          Observed-Grows f o,
        )
  SoundAt-Grows failed (a, b, c) = rw (g.callbacks, g.cancelled) (a, b, ground arith)

module _ (run : Option PyFloat) (w : World) (s : IsSound run w) where
  first_wait-IsSound : w.phase ≡ watching → Wakes run w → IsSound run (after_first_wait w)
  unfolding after_first_wait
  first_wait-IsSound e (by_exit h) =
      let at = subst (SoundAt run w) e s.at_phase in
      ground (arith, s.exit_known, s.failure_known, s.request_known)
  first_wait-IsSound e (by_reader h) =
      let at = subst (SoundAt run w) e s.at_phase in
      ground (arith, s.exit_known, s.failure_known, s.request_known)
  first_wait-IsSound e (by_request h) =
      let at = subst (SoundAt run w) e s.at_phase in
      ground (arith, s.exit_known, s.failure_known, s.request_known)
  first_wait-IsSound e (by_timeout h) =
      let at = subst (SoundAt run w) e s.at_phase in
      ground (arith, s.exit_known, s.failure_known, s.request_known)

  terminate_error-IsSound :
      w.phase ≡ watching → is_some w.returncode ≡ true → IsSound run (after_terminate_error w)
  unfolding after_terminate_error
  terminate_error-IsSound e c =
      let at = subst (SoundAt run w) e s.at_phase in
      ground (arith, s.exit_known, s.failure_known, s.request_known)

  grace_ends-IsSound :
      (d : ProcessTerminationDecision)
      → w.phase ≡ terminating d
      → is_done w.process_exit_task ≡ true
      → IsSound run (after_exit_in_grace d w)
  unfolding after_exit_in_grace
  grace_ends-IsSound timeout e done =
      let at = subst (SoundAt run w) e s.at_phase in
      ground (arith, s.exit_known, s.failure_known, s.request_known)
  grace_ends-IsSound external_request e done =
      let at = subst (SoundAt run w) e s.at_phase in
      ground (arith, s.exit_known, s.failure_known, s.request_known)
  grace_ends-IsSound d e done = let at = subst (SoundAt run w) e s.at_phase in absurd at.3

  grace_expires-IsSound :
      (d : ProcessTerminationDecision)
      → w.phase ≡ terminating d
      → w.process_exit_task ≡ running
      → IsSound run (after_grace_expired d w)
  unfolding after_grace_expired
  grace_expires-IsSound d e r =
      let at = subst (SoundAt run w) e s.at_phase in
      ground (arith, s.exit_known, s.failure_known, s.request_known)

  confirmation_ends-IsSound :
      (d : ProcessTerminationDecision) (m : ProcessTerminationMethod)
      → w.phase ≡ confirming d m
      → is_done w.process_exit_task ≡ true
      → IsSound run (after_exit_confirmed d m w)
  unfolding after_exit_confirmed
  confirmation_ends-IsSound d m e done =
      let at = subst (SoundAt run w) e s.at_phase in
      ground (arith, s.exit_known, s.failure_known, s.request_known)

  confirmation_expires-IsSound :
      (d : ProcessTerminationDecision) (m : ProcessTerminationMethod)
      → w.phase ≡ confirming d m
      → w.process_exit_task ≡ running
      → IsSound run (after_confirmation_expired d m w)
  unfolding after_confirmation_expired
  confirmation_expires-IsSound d m e r =
      let at = subst (SoundAt run w) e s.at_phase in
      ground (arith, s.exit_known, s.failure_known, s.request_known)

-- A move outside the coroutine.
outside :
    (run : Option PyFloat) (w w' : World)
    → IsSound run w
    → Grows w w'
    → w'.phase ≡ w.phase
    → (w'.process_exit_task ≡ finished → is_some w'.returncode ≡ true)
    → (w'.fatal_reader_error_done ≡ true → w'.fatal_reader_error ≡ true)
    → (w'.ext_termination_request_done ≡ true → w'.ext_termination_request ≡ true)
    → IsSound run w'
outside run w w' s g p x f r = record {
  exit_known = x;
  failure_known = f;
  request_known = r;
  at_phase = rw p (SoundAt-Grows run w w' g w.phase s.at_phase);
}

pub Step-IsSound :
    {run : Option PyFloat} {w w' : World} → Step run w w' → IsSound run w → IsSound run w'
Step-IsSound {run} (child_exits w c h) s =
    outside run w (record w { returncode = some c }) s (ground arith) refl (λ _. refl)
      s.failure_known s.request_known
Step-IsSound {run} (reader_fails w) s =
    outside run w (record w { fatal_reader_error = true }) s (ground arith) refl s.exit_known
      (λ _. refl) s.request_known
Step-IsSound {run} (host_requests w) s =
    outside run w (record w { ext_termination_request = true }) s (ground arith) refl s.exit_known
      s.failure_known (λ _. refl)
Step-IsSound {run} (exit_seen w h r) s =
    outside run w (record w { process_exit_task = finished }) s (ground arith) refl (λ _. h)
      s.failure_known s.request_known
Step-IsSound {run} (exit_task_raises w r) s =
    outside run w (record w { process_exit_task = raised }) s (ground arith) refl (λ e. cc)
      s.failure_known s.request_known
Step-IsSound {run} (failure_seen w h) s =
    outside run w (record w { fatal_reader_error_done = true }) s (ground arith) refl s.exit_known
      (λ _. h) s.request_known
Step-IsSound {run} (request_seen w h) s =
    outside run w (record w { ext_termination_request_done = true }) s (ground arith) refl
      s.exit_known s.failure_known (λ _. h)
Step-IsSound {run} (first_wait_returns w e h) s = first_wait-IsSound run w s e h
Step-IsSound {run} (terminate_raises w e h f r c) s = terminate_error-IsSound run w s e c
Step-IsSound {run} (grace_ends w d e h) s = grace_ends-IsSound run w s d e h
Step-IsSound {run} (grace_expires w d e h) s = grace_expires-IsSound run w s d e h
Step-IsSound {run} (confirmation_ends w d m e h) s = confirmation_ends-IsSound run w s d m e h
Step-IsSound {run} (confirmation_expires w d m e h) s = confirmation_expires-IsSound run w s d m e h

pub start-IsSound : (run : Option PyFloat) (requested : Bool) → IsSound run (start requested)
unfolding start
start-IsSound run requested = ground arith

pub Reach-IsSound :
    {run : Option PyFloat} (requested : Bool) {w : World}
    → Reach run (start requested) w
    → IsSound run w
Reach-IsSound {run} requested begun = start-IsSound run requested
Reach-IsSound requested (moved r st) = Step-IsSound st (Reach-IsSound requested r)
