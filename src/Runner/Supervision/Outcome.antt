-- ===== src/Runner/Supervision/Outcome.antt =====
-- What a run that has returned, or raised an error of its own, shows of its parts
-- (src/flnr/flnr.py, `_run_ex_async` with `close_monitoring` and `report_result`).
use flnr.Base.{
  ℕ, ◌≡◌, ◌⊎◌, refl, sym, ap, ◌∙◌, subst, Bool, true, false, Option, none, some, List, [], ◌∷◌, inl,
  inr, is_some, All, All-append, All-unmap, All-both, Option-cases,
}
use flnr.Base.Int.{pos}
use flnr.Base.Text.{Text}
use flnr.Floats.{PyFloat}
use flnr.Fate.{ProcessFate}
use flnr.Monitors.{PyException}
use flnr.Sink.Loop.{Tracked}
use flnr.Sink.Lifetime.{IsClosed}
use flnr.Lifecycle.{World, resolved}
use flnr.Lifecycle.Invariant.{SoundAt, Reason, Enforced, Observed}
use flnr.Reader.{
  Reader, RelayEnd, RelayPhase, completed, cancelled, unstarted, ended, created, reading, yielding,
  holding, DrainPhase, waiting_request, waiting_relay, cancelling, drained, stopped,
  assertion_failed,
}
use flnr.Reader as Streams
use flnr.Reader.Invariant.{IsSound, Kept, Fed, is_failed}
use flnr.Reader.Drain.{AllTold}
use flnr.EnvMonitor.{EnvWorld, EnvPhase, FateTask}
use flnr.EnvMonitor as Environment
use flnr.EnvMonitor.Protocol.{Grounded, Holds}
use flnr.Runner.Report.{TaskEnd, Report, returned, raised, report_result, internal_failures}
use flnr.Runner.Report as Reporting
use flnr.Runner.Report.Priority.{
  returned_fate, NoneFailed, first_wrong, IsReport, report_result_code, report_result-returned,
  report_result-IsReport,
}
use flnr.Runner.Supervision.{
  Run, StreamTask, EnvTask, reported, fate_task_of, relay_end, stream_end, env_end, collect,
  task_ends, RunReach, StreamSetup, EnvSetup, start_run,
}
use flnr.Runner.Supervision.Parts.{StreamKept, EnvKept}
use flnr.Runner.Supervision.Whole.{IsWhole, MainKept, RunReach-IsWhole}

-- How a reader is over in a run that returns: with its stream read to the end and each monitor
-- closed, given the chunks in order from the first on; cancelled with each monitor closed; or never
-- started.
abbrev pub RelayOver : Reader → RelayPhase → Type 0
RelayOver r (ended completed) = Tracked (IsClosed r.chunks_read) 0 r.handles r.monitoring.calls
RelayOver r (ended cancelled) = AllTold r
RelayOver r (ended unstarted) = Unit
RelayOver r _ = ⊥

abbrev pub IsFinished : StreamTask → Type 0
IsFinished t = (t.reader.read_error ≡ false) × RelayOver t.reader t.reader.relay

-- An environment monitor passed the fate on, or was cancelled.
abbrev pub FatePassed : ProcessFate → EnvPhase → Type 0
FatePassed f (Environment.ended (Environment.completed g)) = g ≡ f
FatePassed f (Environment.ended Environment.cancelled) = Unit
FatePassed f _ = ⊥

abbrev pub HasPassed : ProcessFate → EnvTask → Type 0
HasPassed f t = FatePassed f t.world.phase

-- A task that is over, without an exception.
abbrev IsFine : Option TaskEnd → Type 0
IsFine (some (Reporting.failed exc)) = ⊥
IsFine (some _) = Unit
IsFine none = ⊥

collect_cons :
    (o : TaskEnd) (os : List (Option TaskEnd)) (ends : List TaskEnd)
    → collect (some o ∷ os) ≡ some ends
    → (rest : List TaskEnd) × (collect os ≡ some rest) × (o ∷ rest ≡ ends)
collect_cons o os ends e = elim (Option-cases (collect os)) [
  | inl k ↦ cc
  | inr (rest, k) ↦ (rest, k, cc)
]

collect-IsFine :
    (os : List (Option TaskEnd)) (ends : List TaskEnd)
    → collect os ≡ some ends
    → NoneFailed ends
    → All IsFine os
collect-IsFine [] ends e n = tt
collect-IsFine (none ∷ os) ends e n = cc
collect-IsFine (some Reporting.completed ∷ os) ends e n =
    let (rest, k, c) = collect_cons Reporting.completed os ends e in
    (tt, collect-IsFine os rest k (subst NoneFailed (sym c) n))
collect-IsFine (some Reporting.cancelled ∷ os) ends e n =
    let (rest, k, c) = collect_cons Reporting.cancelled os ends e in
    (tt, collect-IsFine os rest k (subst NoneFailed (sym c) n))
collect-IsFine (some (Reporting.failed exc) ∷ os) ends e n =
    let (rest, k, c) = collect_cons (Reporting.failed exc) os ends e in
    absurd (subst NoneFailed (sym c) n)

stream-IsFinished :
    (exc assertion : PyException) (l : World) (t : StreamTask)
    → IsFine (stream_end exc assertion t.reader.relay t.reader.drain)
    → StreamKept l [] t
    → IsFinished t
unfolding stream_end relay_end
stream-IsFinished exc assertion l t fine k = by_phase t.reader.relay refl t.reader.drain fine
  where
    s : IsSound t.reader
    s = k.sound

    tracked :
        (p : RelayPhase)
        → t.reader.relay ≡ p
        → Tracked (Kept p s.sent) 0 t.reader.handles t.reader.monitoring.calls
    tracked p e =
        subst (λ q. Tracked (Kept q s.sent) 0 t.reader.handles t.reader.monitoring.calls) e
          s.tracked

    quiet : (p : RelayPhase) → t.reader.relay ≡ p → t.reader.read_error ≡ is_failed p
    quiet p e = s.errors ∙ ap is_failed e

    by_phase :
        (p : RelayPhase)
        → t.reader.relay ≡ p
        → (d : DrainPhase) → IsFine (stream_end exc assertion p d)
        → (t.reader.read_error ≡ false) × RelayOver t.reader p
    by_phase (ended completed) e d f = (
      quiet (ended completed) e,
      subst (λ sent. Tracked (IsClosed sent) 0 t.reader.handles t.reader.monitoring.calls)
          (sym (subst (λ q. Fed q s.sent t.reader.chunks_read) e s.fed))
          (tracked (ended completed) e),
    )
    by_phase (ended cancelled) e d f =
        (quiet (ended cancelled) e, (s.sent, tracked (ended cancelled) e))
    by_phase (ended unstarted) e d f = (quiet (ended unstarted) e, tt)
    by_phase (ended Streams.failed) e waiting_request f = absurd f
    by_phase (ended Streams.failed) e waiting_relay f = absurd f
    by_phase (ended Streams.failed) e cancelling f = absurd f
    by_phase (ended Streams.failed) e drained f = absurd f
    by_phase (ended Streams.failed) e stopped f = absurd f
    by_phase (ended Streams.failed) e assertion_failed f = absurd f
    by_phase created e d f = absurd f
    by_phase reading e d f = absurd f
    by_phase yielding e d f = absurd f
    by_phase (holding chunk ts) e d f = absurd f

passed_fate :
    (exc assertion : PyException) (l : World) (f : ProcessFate)
    → l.phase ≡ resolved f
    → (t : EnvTask) → IsFine (env_end exc assertion t.world.phase)
    → EnvKept l [] t
    → HasPassed f t
unfolding env_end fate_task_of
passed_fate exc assertion l f e t fine k = by_phase t.world.phase fine k.in_step.grounded
  where
    known : t.world.fate_task ≡ Environment.resolved f
    known = k.same_fate ∙ ap fate_task_of e

    by_phase :
        (p : EnvPhase) → IsFine (env_end exc assertion p) → Grounded p t.world → FatePassed f p
    by_phase (Environment.ended (Environment.completed g)) i h = cc
    by_phase (Environment.ended (Environment.gave_up hook x)) i h =
        absurd (subst (Holds _) k.same_failures h)
    by_phase (Environment.ended Environment.fate_raised) i h = absurd i
    by_phase (Environment.ended Environment.cancelled) i h = tt
    by_phase (Environment.ended Environment.assertion_failed) i h = absurd i
    by_phase Environment.waiting_start i h = absurd i
    by_phase Environment.watching i h = absurd i
    by_phase Environment.waiting_observe i h = absurd i
    by_phase (Environment.waiting_end fate) i h = absurd i

fate_code :
    (l : World) (f : ProcessFate)
    → Observed l f
    → (f.returncode ≡ l.returncode) ⊎ (f.returncode ≡ none)
fate_code l f (inl (e, c)) = inl e
fate_code l f (inr (e, c)) = inr e

-- The code of a fate that has one is the child's.
seen_code :
    (l : World) (f : ProcessFate)
    → Observed l f
    → is_some f.returncode ≡ true
    → l.returncode ≡ f.returncode
seen_code l f (inl (e, c)) h = sym e
seen_code l f (inr (e, c)) h = cc

module _ (run : Option PyFloat) (check : Bool) (fate_exception assertion : PyException) where
  -- What a run that returns `f` has seen.
  pub record HasReturned (w : Run) (f : ProcessFate) : Type 0 where
    pub exit_seen : (is_some f.returncode ≡ true) × (w.lifecycle.returncode ≡ f.returncode)
    pub accepted : (check ≡ false) ⊎ (f.returncode ≡ some (pos 0))
    pub reason : Reason run w.lifecycle f.termination_decision
    pub enforced : Enforced w.lifecycle f.termination_decision f.termination_method
    pub no_failures : w.monitor_failures ≡ []
    pub readers : All IsFinished w.stream_tasks
    pub env_monitors : All (HasPassed f) w.env_tasks

  -- What was reported follows the order of `report_result`, of the fate and of tasks that are
  -- all over.
  pub record HasReported (w : Run) (r : Report) : Type 0 where
    pub fate : ProcessFate
    pub ends : List TaskEnd
    pub is_fate : w.lifecycle.phase ≡ resolved fate
    pub all_over : task_ends run check fate_exception assertion w ≡ some ends
    pub is_report :
        IsReport check ends w.monitor_failures fate
          (first_wrong check ends w.monitor_failures fate)
          r

  module _ (w : Run) (s : IsWhole run check fate_exception assertion w) where
    observed_at :
        (f : ProcessFate) → w.lifecycle.phase ≡ resolved f → SoundAt run w.lifecycle (resolved f)
    observed_at f e = subst (SoundAt run w.lifecycle) e s.lifecycle.at_phase

    tasks_fine :
        (f : ProcessFate) (ends : List TaskEnd)
        → w.lifecycle.phase ≡ resolved f
        → task_ends run check fate_exception assertion w ≡ some ends
        → NoneFailed ends
        → w.monitor_failures ≡ []
        → All IsFinished w.stream_tasks × All (HasPassed f) w.env_tasks
    unfolding task_ends
    tasks_fine f ends e k n none_failed =
        let (fine_streams, fine_envs) = All-append IsFine _ _ (collect-IsFine _ ends k n) in
        (
          All-both _ _ IsFinished
              (λ t a b. stream-IsFinished t.read_exception assertion w.lifecycle t a b)
              w.stream_tasks (All-unmap IsFine _ w.stream_tasks fine_streams)
              (subst (λ fs. All (StreamKept w.lifecycle fs) w.stream_tasks) none_failed s.streams),
          All-both _ _ (HasPassed f)
              (λ t a b. passed_fate fate_exception assertion w.lifecycle f e t a b) w.env_tasks
              (All-unmap IsFine _ w.env_tasks fine_envs)
              (subst (λ fs. All (EnvKept w.lifecycle fs) w.env_tasks) none_failed s.envs),
        )

    -- What was reported, from the code of the fate.
    reported_as :
        (r : Report)
        → w.main ≡ reported r
        → (f : ProcessFate) × (ends : List TaskEnd) × (w.lifecycle.phase ≡ resolved f)
          × (task_ends run check fate_exception assertion w ≡ some ends)
          × (r ≡ report_result check ends w.monitor_failures f.returncode f)
    reported_as r e =
        let (f, ends, p, k, q) =
          subst (λ m. MainKept run check fate_exception assertion m w) e s.main in
        let (_, _, _, _, o) = observed_at f p in
        (
          f,
          ends,
          p,
          k,
          q
              ∙ report_result_code check ends w.monitor_failures f w.lifecycle.returncode
                  (fate_code w.lifecycle f o),
        )

    returned_at : (f : ProcessFate) → w.main ≡ reported (returned f) → HasReturned w f
    returned_at f e =
        let (g, ends, p, k, q) = reported_as (returned f) e in
        let same = returned_fate check ends w.monitor_failures g f (sym q) in
        let p' = subst (λ x. w.lifecycle.phase ≡ resolved x) (sym same) p in
        let (_, _, enforced, reason, o) = observed_at f p' in
        let (seen, fine, accepted, none_failed) =
          (report_result-returned check ends w.monitor_failures f).0 (
            subst (λ x. report_result check ends w.monitor_failures x.returncode x ≡ returned f)
              (sym same) (sym q)) in
        let (readers, env_monitors) = tasks_fine f ends p' k fine none_failed in
        record {
          exit_seen = (seen, seen_code w.lifecycle f o seen);
          accepted = accepted;
          reason = reason;
          enforced = enforced;
          no_failures = none_failed;
          readers = readers;
          env_monitors = env_monitors;
        }

    reported_at : (r : Report) → w.main ≡ reported r → HasReported w r
    reported_at r e =
        let (f, ends, p, k, q) = reported_as r e in
        record {
          fate = f;
          ends = ends;
          is_fate = p;
          all_over = k;
          is_report =
              subst
                (IsReport check ends w.monitor_failures f
                  (first_wrong check ends w.monitor_failures f))
                (sym q) (report_result-IsReport check ends w.monitor_failures f);
        }

  module _ (requested : Bool) (pid : ℕ) (cmd : List Text) (streams : List StreamSetup)
      (envs : List EnvSetup) {w : Run}
      (reach : RunReach run check fate_exception assertion
        (start_run requested pid cmd streams envs)
        w) where
    whole : IsWhole run check fate_exception assertion w
    whole = RunReach-IsWhole run check fate_exception assertion requested pid cmd streams envs reach

    -- However the child, the streams, the monitors and the timers interleave, a run that returns a
    -- fate has seen the child's exit, with the code of the fate, which is 0 if it is checked; the
    -- decision of the fate has its cause in the run and its method goes with the signals sent; no
    -- monitor failed; no read of a stream raised, and each reader read its stream to the end and
    -- gave each monitor the chunks in order from the first on before it closed it, or was cancelled
    -- with its monitors closed, or never began; and each environment monitor has
    -- passed on that fate, or was cancelled.
    pub returned-HasReturned : (f : ProcessFate) → w.main ≡ reported (returned f) → HasReturned w f
    returned-HasReturned f e = returned_at w whole f e

    -- However the parts of a run interleave, what it reports at last is of the fate that was
    -- resolved and of tasks that are all over, and it is the first thing that went wrong in the
    -- order of `report_result`, or the fate where nothing did.
    pub reported-HasReported : (r : Report) → w.main ≡ reported r → HasReported w r
    reported-HasReported r e = reported_at w whole r e
