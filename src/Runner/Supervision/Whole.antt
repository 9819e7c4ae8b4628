-- ===== src/Runner/Supervision/Whole.antt =====
-- The invariant of a whole run (src/flnr/flnr.py): each part keeps its own invariant while the others
-- move, and all see the same shared values.
use flnr.Base.{
  ℕ, suc, ◌≡◌, ◌⊎◌, ◌≢◌, refl, sym, ap, ◌∙◌, subst, Bool, true, false, Option, some, List, [], ◌∷◌,
  ◌++◌, map, inl, inr, append-nil, All, All-split, All-join, All-imp,
}
use flnr.Base.Text.{Text}
use flnr.Floats.{PyFloat}
use flnr.Fate.{ProcessFate}
use flnr.Monitors.{PyException}
use flnr.Lifecycle.{World, resolved, failed, start, Step as LifecycleStep}
use flnr.Lifecycle.Invariant.{
  IsSound as LifecycleIsSound, Step-IsSound as lifecycle_keeps, start-IsSound,
}
use flnr.Lifecycle.Events.{Step-fatal}
use flnr.Reader.{Reader, start_reader, Step as ReaderStep}
use flnr.Reader.Runs.{Step-IsSound, start_reader-IsSound}
use flnr.Reader.Failures.{Step-Grew}
use flnr.EnvMonitor.{EnvWorld, running, is_own_env, start_env, begun}
use flnr.EnvMonitor.Runs.{EnvStep-InStep, EnvReach-InStep}
use flnr.EnvMonitor.Failures.{EnvStep-FailuresGrew, own_keeps_fate}
use flnr.EnvMonitor as Environment
use flnr.Runner.Report.{TaskEnd, report_result}
use flnr.Runner.Supervision.{
  Run, StreamTask, EnvTask, Main, awaiting_fate, gathering, reported, fate_raised, is_leaving,
  share, fate_task_of, tell_lifecycle, task_ends, RunStep, lifecycle_moves, stream_moves, env_moves,
  fate_awaited, fate_await_raises, reports, RunReach, run_begun, run_moved, StreamSetup, EnvSetup,
  start_run, stream_task, env_tasks_from,
}
use flnr.Runner.Supervision.Lifecycle.{Step-settled, tell_lifecycle-IsSound, tell_lifecycle-IsTold}
use flnr.Runner.Supervision.Parts.{
  StreamKept, EnvKept, StreamReady, EnvReady, share-StreamKept, share-EnvKept, stream_waits,
  env_waits,
}

module _ (run : Option PyFloat) (check : Bool) (fate_exception assertion : PyException) where
  -- What the main coroutine has seen of the others.
  abbrev pub MainKept : Main → Run → Type 0
  MainKept awaiting_fate w = Unit
  MainKept (gathering f) w = w.lifecycle.phase ≡ resolved f
  MainKept fate_raised w = w.lifecycle.phase ≡ failed
  MainKept (reported r) w =
      (f : ProcessFate) × (ends : List TaskEnd) × (w.lifecycle.phase ≡ resolved f)
      × (task_ends run check fate_exception assertion w ≡ some ends)
      × (r ≡ report_result check ends w.monitor_failures w.lifecycle.returncode f)

  pub record IsWhole (w : Run) : Type 0 where
    pub lifecycle : LifecycleIsSound run w.lifecycle
    pub streams : All (StreamKept w.lifecycle w.monitor_failures) w.stream_tasks
    pub envs : All (EnvKept w.lifecycle w.monitor_failures) w.env_tasks
    pub main : MainKept w.main w

  -- The main coroutine waits while another part moves.
  main_waits :
      (m : Main) (w v : Run)
      → is_leaving m ≡ false
      → (fate_task_of w.lifecycle.phase ≡ running) ⊎ (v.lifecycle.phase ≡ w.lifecycle.phase)
      → MainKept m w
      → MainKept m v
  unfolding fate_task_of
  main_waits awaiting_fate w v h k e = tt
  main_waits (gathering f) w v h (inl k) e = absurd (never_running (sym (ap fate_task_of e) ∙ k))
    where
      never_running : Environment.resolved f ≢ running
      never_running e = cc
  main_waits (gathering f) w v h (inr k) e = k ∙ e
  main_waits fate_raised w v h k e = cc
  main_waits (reported r) w v h k e = cc

  shared_again :
      (w : Run)
      → LifecycleIsSound run w.lifecycle
      → All (StreamReady w.lifecycle) w.stream_tasks
      → All (EnvReady w.lifecycle w.monitor_failures) w.env_tasks
      → MainKept w.main (share w)
      → IsWhole (share w)
  unfolding share
  shared_again w l ss es m = record {
    lifecycle = l;
    streams = share-StreamKept w ss;
    envs = share-EnvKept w es;
    main = m;
  }

  lifecycle_moves-IsWhole :
      (w : Run) (l : World)
      → LifecycleStep run w.lifecycle l
      → is_leaving w.main ≡ false
      → IsWhole w
      → IsWhole (share (record w { lifecycle = l }))
  unfolding share
  lifecycle_moves-IsWhole w l step h s =
      let fs = w.monitor_failures in
      let w' = record w { lifecycle = l } in
      shared_again w' (lifecycle_keeps step s.lifecycle)
        (All-imp (StreamKept w.lifecycle fs) (StreamReady l)
          (stream_waits w.lifecycle l fs (Step-fatal step)) w.stream_tasks s.streams)
        (subst (λ gs. All (EnvReady l gs) w.env_tasks) (append-nil fs)
          (All-imp (EnvKept w.lifecycle fs) (EnvReady l (fs ++ []))
            (env_waits w.lifecycle l fs [] (Step-settled step)) w.env_tasks s.envs))
        (main_waits w.main w (share w') h (Step-settled step) s.main)

  -- The stream tasks around the one that moves.
  stream_moves-IsWhole :
      (w : Run) (before : List StreamTask) (t : StreamTask) (after : List StreamTask) (r : Reader)
      → ReaderStep t.behaviour t.reader r
      → w.stream_tasks ≡ before ++ t ∷ after
      → is_leaving w.main ≡ false
      → IsWhole w
      → IsWhole (
          share (record w {
            lifecycle = tell_lifecycle r w.lifecycle;
            stream_tasks = before ++ record t { reader = r } ∷ after;
            monitor_failures = r.monitoring.monitor_failures;
          }))
  unfolding share
  stream_moves-IsWhole w before t after r step e h s =
      let l = w.lifecycle in
      let l' = tell_lifecycle r l in
      let fs = w.monitor_failures in
      let told = tell_lifecycle-IsTold r l in
      let t' = record t { reader = r } in
      let (first, moving, last) =
        All-split (StreamKept l fs) before t after (subst (All (StreamKept l fs)) e s.streams) in
      let (new, grew) = Step-Grew t.behaviour step in
      let grown = ap (λ g. g ++ new) (sym moving.same_failures) ∙ sym grew in
      let w' = record w {
        lifecycle = l';
        stream_tasks = before ++ t' ∷ after;
        monitor_failures = r.monitoring.monitor_failures;
      } in
      shared_again w' (tell_lifecycle-IsSound r l s.lifecycle)
        (All-join (StreamReady l') before t' after
          (All-imp (StreamKept l fs) (StreamReady l') (stream_waits l l' fs told.kept) before first)
          (record { sound = Step-IsSound t.behaviour step moving.sound; heard = told.heard })
          (All-imp (StreamKept l fs) (StreamReady l') (stream_waits l l' fs told.kept) after last))
        (subst (λ gs. All (EnvReady l' gs) w.env_tasks) grown
          (All-imp (EnvKept l fs) (EnvReady l' (fs ++ new))
            (env_waits l l' fs new (inr told.same_phase)) w.env_tasks s.envs))
        (main_waits w.main w (share w') h (inr told.same_phase) s.main)

  env_moves-IsWhole :
      (w : Run) (before : List EnvTask) (t : EnvTask) (after : List EnvTask) (v : EnvWorld)
      → (step : Environment.EnvStep t.behaviour t.world v) → is_own_env t.behaviour step ≡ true
      → w.env_tasks ≡ before ++ t ∷ after
      → is_leaving w.main ≡ false
      → IsWhole w
      → IsWhole (
          share (record w {
            env_tasks = before ++ record t { world = v } ∷ after;
            monitor_failures = v.monitor_failures;
          }))
  unfolding share
  env_moves-IsWhole w before t after v step own e h s =
      let l = w.lifecycle in
      let fs = w.monitor_failures in
      let t' = record t { world = v } in
      let (first, moving, last) =
        All-split (EnvKept l fs) before t after (subst (All (EnvKept l fs)) e s.envs) in
      let (new, grew) = EnvStep-FailuresGrew t.behaviour step in
      let grown = ap (λ g. g ++ new) (sym moving.same_failures) ∙ sym grew in
      let waits =
        All-imp (EnvKept l fs) (EnvReady l (fs ++ new)) (env_waits l l fs new (inr refl)) in
      let w' = record w {
        env_tasks = before ++ t' ∷ after;
        monitor_failures = v.monitor_failures;
      } in
      shared_again w' s.lifecycle
        (All-imp (StreamKept l fs) (StreamReady l) (stream_waits l l fs (inl refl)) w.stream_tasks
          s.streams)
        (All-join (EnvReady l v.monitor_failures) before t' after
          (subst (λ gs. All (EnvReady l gs) before) grown (waits before first))
          (record {
            in_step = EnvStep-InStep t.behaviour step moving.in_step;
            fate = inr (sym (own_keeps_fate step own ∙ moving.same_fate));
            grew = ([], sym (append-nil v.monitor_failures));
          })
          (subst (λ gs. All (EnvReady l gs) after) grown (waits after last)))
        (main_waits w.main w (share w') h (inr refl) s.main)

  pub RunStep-IsWhole :
      {w v : Run} → RunStep run check fate_exception assertion w v → IsWhole w → IsWhole v
  unfolding share task_ends
  RunStep-IsWhole (lifecycle_moves w l step own h) s = lifecycle_moves-IsWhole w l step h s
  RunStep-IsWhole (stream_moves w before t after r step own e h) s =
      stream_moves-IsWhole w before t after r step e h s
  RunStep-IsWhole (env_moves w before t after v step own e h) s =
      env_moves-IsWhole w before t after v step own e h s
  RunStep-IsWhole (fate_awaited w fate e p) s =
      let l = w.lifecycle in
      let fs = w.monitor_failures in
      shared_again (record w { drain_requested = true; main = gathering fate }) s.lifecycle
        (All-imp (StreamKept l fs) (StreamReady l) (stream_waits l l fs (inl refl)) w.stream_tasks
          s.streams)
        (subst (λ gs. All (EnvReady l gs) w.env_tasks) (append-nil fs)
          (All-imp (EnvKept l fs) (EnvReady l (fs ++ [])) (env_waits l l fs [] (inr refl))
            w.env_tasks s.envs))
        p
  RunStep-IsWhole (fate_await_raises w e p) s = record {
    lifecycle = s.lifecycle;
    streams = s.streams;
    envs = s.envs;
    main = p;
  }
  RunStep-IsWhole (reports w fate ends e k) s = record {
    lifecycle = s.lifecycle;
    streams = s.streams;
    envs = s.envs;
    main = (fate, ends, subst (λ m. MainKept m w) e s.main, k, refl);
  }

  pub start_run-IsWhole :
      (requested : Bool) (pid : ℕ) (cmd : List Text) (streams : List StreamSetup)
      (envs : List EnvSetup)
      → IsWhole (start_run requested pid cmd streams envs)
  unfolding start_run stream_task env_tasks_from start start_reader start_env fate_task_of
  start_run-IsWhole requested pid cmd streams envs = record {
    lifecycle = start-IsSound run requested;
    streams = started streams;
    envs = watched 0 envs;
    main = tt;
  }
    where
      started : (ss : List StreamSetup) → All (StreamKept (start requested) []) (map stream_task ss)
      started [] = tt
      started (s ∷ ss) = (
        record {
          sound = start_reader-IsSound s.behaviour s.monitors s.stream [];
          same_failures = refl;
          same_allowed = refl;
          heard = refl;
        },
        started ss,
      )

      watched :
          (i : ℕ) (es : List EnvSetup)
          → All (EnvKept (start requested) []) (env_tasks_from i pid cmd es)
      watched i [] = tt
      watched i (e ∷ es) = (
        record {
          in_step =
              EnvReach-InStep e.behaviour pid cmd e.monitor i [] (start_env pid cmd e.monitor i [])
                begun;
          same_failures = refl;
          same_allowed = refl;
          same_fate = refl;
        },
        watched (suc i) es,
      )

  -- In every reachable state of a run, whatever the order in which its parts move, the fate
  -- coroutine, each reader and each environment monitor is in its own invariant, all of them see
  -- the same pauses, fate and failures, and the fate coroutine has heard of each failed reader.
  pub RunReach-IsWhole :
      (requested : Bool) (pid : ℕ) (cmd : List Text) (streams : List StreamSetup)
      (envs : List EnvSetup) {w : Run}
      → RunReach run check fate_exception assertion (start_run requested pid cmd streams envs) w
      → IsWhole w
  RunReach-IsWhole requested pid cmd streams envs run_begun =
      start_run-IsWhole requested pid cmd streams envs
  RunReach-IsWhole requested pid cmd streams envs (run_moved r step) =
      RunStep-IsWhole step (RunReach-IsWhole requested pid cmd streams envs r)
