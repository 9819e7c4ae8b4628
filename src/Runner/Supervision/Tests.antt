-- ===== src/Runner/Supervision/Tests.antt =====
-- A whole run, and instances for it (src/flnr/flnr.py).
use flnr.Base.{refl, true, false, none, some, List, [], ◌∷◌}
use flnr.Base.Int.{pos}
use flnr.Base.Text.{codes}
use flnr.Floats.{PyFloat, finite}
use flnr.Fate.{ProcessFate, no_intervention, method_none}
use flnr.Monitors.{PyException, stdout}
use flnr.Sink.{
  handles_from, on_data, for_each, deliver, handle_process, disable, log_call, disable_all,
  disable_one, handle_on_disable,
}
use flnr.Lifecycle.{
  World, start, by_exit, child_exits, exit_seen, first_wait_returns, confirmation_ends,
  after_first_wait, after_exit_confirmed, confirm, leave, resume_monitors,
}
use flnr.Lifecycle as Lifecycle
use flnr.Reader.{
  Reader, start_reader, relay_starts, read_returns, slept, drain_seen, drain_wait_ends, after_read,
  after_allowed, at_eof, finalize, after_drain_wait,
}
use flnr.Reader as Streams
use flnr.EnvMonitor.{
  EnvWorld, call, start_env, start_allowed, watch_ends, end_allowed, after_start_allowed,
  after_watch, after_end_allowed,
}
use flnr.Runner.Report.{returned, report_result, report_known, report_exit, internal_failures}
use flnr.Runner.Report as Reporting
use flnr.Runner.Supervision.{
  Run, StreamTask, EnvTask, reported, gathering, start_run, share, tell_lifecycle, stream_task,
  env_tasks_from, share_stream, share_env, fate_task_of, StreamSetup, EnvSetup, RunReach, run_begun,
  run_moved, lifecycle_moves, stream_moves, env_moves, fate_awaited, reports, task_ends, stream_end,
  env_end, relay_end,
}
use flnr.Runner.Supervision.Whole.{IsWhole, RunReach-IsWhole}
use flnr.Runner.Supervision.Outcome.{
  HasReturned, returned-HasReturned, HasReported, reported-HasReported,
}

abbrev at : PyFloat
at = finite (pos 7)

abbrev broken : PyException
broken = record {
  type_name = "OSError";
  text = "no";
  representation = "OSError('no')";
  backtrace = "Traceback";
}

abbrev exited : ProcessFate
exited = record {
  termination_decision = no_intervention;
  termination_method = method_none;
  returncode = some (pos 0);
}

abbrev streams : List StreamSetup
streams =
    record {
      behaviour = λ log. none;
      read_exception = broken;
      monitors = record { type_name = "Tee" } ∷ [];
      stream = stdout;
    }
    ∷ []

abbrev envs : List EnvSetup
envs = record { behaviour = λ log. none; monitor = record { type_name = "Sampler" } } ∷ []

abbrev r0 : Run
r0 = start_run false 7 (codes "make" ∷ []) streams envs

abbrev RunTo : Run → Type 0
RunTo w = RunReach (some at) true broken broken r0 w

-- The only reader and the only environment monitor of the run.
abbrev first_reader : Run → Reader
first_reader w = elim w.stream_tasks [ [] ↦ start_reader [] stdout [] | t ∷ ts ↦ t.reader ]

abbrev first_env : Run → EnvWorld
first_env w = elim w.env_tasks [
  | [] ↦ start_env 0 [] (record { type_name = "" }) 0 []
  | t ∷ ts ↦ t.world
]

abbrev with_lifecycle : World → Run → Run
with_lifecycle l w = share (record w { lifecycle = l })

abbrev task_with : Reader → StreamTask
task_with r = record { behaviour = λ log. none; read_exception = broken; reader = r }

abbrev with_reader : Reader → Run → Run
with_reader r w = share (record w {
  lifecycle = tell_lifecycle r w.lifecycle;
  stream_tasks = task_with r ∷ [];
  monitor_failures = r.monitoring.monitor_failures;
})

abbrev env_with : EnvWorld → EnvTask
env_with v = record { behaviour = λ log. none; world = v }

abbrev with_env : EnvWorld → Run → Run
with_env v w =
    share (record w { env_tasks = env_with v ∷ []; monitor_failures = v.monitor_failures })

-- The child exits, and that is seen and confirmed.
abbrev r1 : Run
r1 = with_lifecycle (record (r0.lifecycle) { returncode = some (pos 0) }) r0

abbrev r2 : Run
r2 = with_lifecycle (record (r1.lifecycle) { process_exit_task = Lifecycle.finished }) r1

abbrev r3 : Run
r3 = with_lifecycle (after_first_wait r2.lifecycle) r2

abbrev r4 : Run
r4 = with_lifecycle (after_exit_confirmed no_intervention method_none r3.lifecycle) r3

reached_r3 : RunTo r3
unfolding start_run stream_task env_tasks_from start start_reader start_env share share_stream
    share_env fate_task_of after_first_wait after_exit_confirmed confirm leave resume_monitors
    handles_from
reached_r3 =
    run_moved
      (run_moved
        (run_moved run_begun
          (lifecycle_moves r0 r1.lifecycle (child_exits r0.lifecycle (pos 0) refl) refl refl))
        (lifecycle_moves r1 r2.lifecycle (exit_seen r1.lifecycle refl refl) refl refl))
      (lifecycle_moves r2 r3.lifecycle (first_wait_returns r2.lifecycle refl (by_exit refl)) refl
        refl)

reached_r4 : RunTo r4
unfolding start_run stream_task env_tasks_from start start_reader start_env share share_stream
    share_env fate_task_of after_first_wait after_exit_confirmed confirm leave resume_monitors
    handles_from
reached_r4 = run_moved reached_r3 (
    lifecycle_moves r3 r4.lifecycle
      (confirmation_ends r3.lifecycle no_intervention method_none refl refl) refl refl)

-- The main coroutine asks for the drain; the reader comes to the end of its stream.
abbrev r5 : Run
r5 = share (record r4 { drain_requested = true; main = gathering exited })

abbrev r6 : Run
r6 = with_reader (record (first_reader r5) { relay = Streams.reading }) r5

abbrev r7 : Run
r7 = with_reader (after_read (λ log. none) (104 ∷ 105 ∷ []) at at (first_reader r6)) r6

abbrev r8 : Run
r8 = with_reader (record (first_reader r7) { relay = Streams.reading }) r7

abbrev r9 : Run
r9 = with_reader (after_read (λ log. none) [] at at (first_reader r8)) r8

abbrev r10 : Run
r10 = with_reader (record (first_reader r9) { drain = Streams.waiting_relay }) r9

abbrev r11 : Run
r11 = with_reader (after_drain_wait (λ log. none) at (first_reader r10)) r10

reached_r7 : RunTo r7
unfolding start_run stream_task env_tasks_from start start_reader start_env share share_stream
    share_env fate_task_of after_first_wait after_exit_confirmed confirm leave resume_monitors
    handles_from tell_lifecycle after_read after_allowed at_eof finalize on_data for_each deliver
    handle_process disable log_call disable_all disable_one handle_on_disable after_drain_wait
reached_r7 =
    run_moved
      (run_moved (run_moved reached_r4 (fate_awaited r4 exited refl refl)) (
        stream_moves r5 [] (task_with (first_reader r5)) [] (first_reader r6)
          (relay_starts (first_reader r5) refl refl) refl refl refl))
      (stream_moves r6 [] (task_with (first_reader r6)) [] _
        (read_returns (first_reader r6) (104 ∷ 105 ∷ []) at at refl refl) refl refl refl)

reached_r9 : RunTo r9
unfolding start_run stream_task env_tasks_from start start_reader start_env share share_stream
    share_env fate_task_of after_first_wait after_exit_confirmed confirm leave resume_monitors
    handles_from tell_lifecycle after_read after_allowed at_eof finalize on_data for_each deliver
    handle_process disable log_call disable_all disable_one handle_on_disable after_drain_wait
reached_r9 =
    run_moved
      (run_moved reached_r7 (
        stream_moves r7 [] (task_with (first_reader r7)) [] _ (slept (first_reader r7) refl refl)
          refl refl refl))
      (stream_moves r8 [] (task_with (first_reader r8)) [] _
        (read_returns (first_reader r8) [] at at refl refl) refl refl refl)

reached_r11 : RunTo r11
unfolding start_run stream_task env_tasks_from start start_reader start_env share share_stream
    share_env fate_task_of after_first_wait after_exit_confirmed confirm leave resume_monitors
    handles_from tell_lifecycle after_read after_allowed at_eof finalize on_data for_each deliver
    handle_process disable log_call disable_all disable_one handle_on_disable after_drain_wait
reached_r11 =
    run_moved
      (run_moved reached_r9 (
        stream_moves r9 [] (task_with (first_reader r9)) [] _
          (drain_seen (first_reader r9) refl refl) refl refl refl))
      (stream_moves r10 [] (task_with (first_reader r10)) [] _
        (drain_wait_ends (first_reader r10) at refl) refl refl refl)

-- The environment monitor learns of the fate.
abbrev r12 : Run
r12 = with_env (after_start_allowed (λ log. none) (first_env r11)) r11

abbrev r13 : Run
r13 = with_env (after_watch (λ log. none) (first_env r12)) r12

abbrev r14 : Run
r14 = with_env (after_end_allowed (λ log. none) exited (first_env r13)) r13

reached_r14 : RunTo r14
unfolding start_run stream_task env_tasks_from start start_reader start_env share share_stream
    share_env fate_task_of after_first_wait after_exit_confirmed confirm leave resume_monitors
    handles_from tell_lifecycle after_read after_allowed at_eof finalize on_data for_each deliver
    handle_process disable log_call disable_all disable_one handle_on_disable after_drain_wait call
    after_start_allowed after_watch after_end_allowed
reached_r14 =
    run_moved
      (run_moved
        (run_moved reached_r11 (
          env_moves r11 [] (env_with (first_env r11)) [] _ (start_allowed (first_env r11) refl refl)
            refl refl refl))
        (env_moves r12 [] (env_with (first_env r12)) [] _ (watch_ends (first_env r12) refl) refl
          refl refl))
      (env_moves r13 [] (env_with (first_env r13)) [] _
        (end_allowed (first_env r13) exited refl refl) refl refl refl)

abbrev r15 : Run
r15 = record r14 { main = reported (returned exited) }

reached_r15 : RunTo r15
unfolding start_run stream_task env_tasks_from start start_reader start_env share share_stream
    share_env fate_task_of after_first_wait after_exit_confirmed confirm leave resume_monitors
    handles_from tell_lifecycle after_read after_allowed at_eof finalize on_data for_each deliver
    handle_process disable log_call disable_all disable_one handle_on_disable after_drain_wait call
    after_start_allowed after_watch after_end_allowed task_ends stream_end env_end relay_end
    report_result report_known report_exit internal_failures
reached_r15 =
    run_moved reached_r14
      (reports r14 exited (Reporting.completed ∷ Reporting.completed ∷ []) refl refl)

returned-HasReturned_example : HasReturned (some at) true broken broken r15 exited
unfolding start_run stream_task env_tasks_from start start_reader start_env share share_stream
    share_env fate_task_of after_first_wait after_exit_confirmed confirm leave resume_monitors
    handles_from tell_lifecycle after_read after_allowed at_eof finalize on_data for_each deliver
    handle_process disable log_call disable_all disable_one handle_on_disable after_drain_wait call
    after_start_allowed after_watch after_end_allowed
returned-HasReturned_example =
    returned-HasReturned (some at) true broken broken false 7 (codes "make" ∷ []) streams envs
      reached_r15 exited refl

reported-HasReported_example : HasReported (some at) true broken broken r15 (returned exited)
reported-HasReported_example =
    reported-HasReported (some at) true broken broken false 7 (codes "make" ∷ []) streams envs
      reached_r15 (returned exited) refl

RunReach-IsWhole_example : IsWhole (some at) true broken broken r15
RunReach-IsWhole_example =
    RunReach-IsWhole (some at) true broken broken false 7 (codes "make" ∷ []) streams envs
      reached_r15

-- While the exit is being confirmed the reader gets a chunk, and holds it.
abbrev paused : Run
paused = with_reader (record (first_reader r3) { relay = Streams.reading }) r3

abbrev held : Run
held = with_reader (after_read (λ log. none) (104 ∷ []) at at (first_reader paused)) paused
