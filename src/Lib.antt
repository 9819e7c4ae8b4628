-- ===== src/Lib.antt =====
-- A model of flnr, a small subprocess supervision harness (paths from the repository's root).
--
-- `run_ex` (src/flnr/flnr.py) starts one child, reads its output streams for the monitors of the
-- caller, resolves the child's fate by timeouts and requests, and reports it.
--
-- - Outcome, PyValues, Floats: Python's exceptions, arguments of any type, and floats, as far as the
--   code uses them. A finite double is an exact multiple of 2^-1074.
-- - LineSplitter: `IncrementalLineSplitter` of src/flnr/mu.py. The loop of `feed` has the length of
--   the buffer and one as fuel: each round takes a byte at least (LineSplitter/Refinement).
--   LineSplitter/Reference is the splitter with no buffer, the specification.
-- - TextOutput: `TextOutputMonitor` and `BinaryOutputMonitor` of src/flnr/mu.py. The codec of the
--   encoding and `str` of a float are parameters; the sinks are logs of the calls made of them.
--   Floats/Arithmetic has the float arithmetic of the timestamps, rounded as doubles are.
-- - Timeouts: src/flnr/timeouts.py, the period check of src/flnr/monitors.py, and
--   `_effective_death_confirmation_timeout` of src/flnr/_process_utils.py.
-- - Routing: src/flnr/_stream_routing.py. Routing/Destinations says where a descriptor leads.
-- - Monitors, Sink: src/flnr/monitors.py, src/flnr/monitor_failure.py, the output handles of
--   src/flnr/_monitor_handles.py and `_StreamEventsSink` of src/flnr/_observatory.py. What a
--   callback does is an unknown function of the calls made so far, so that a monitor may keep state.
-- - Reader: `_stream_relay`, `_drain_controller` and `_reader_task` of src/flnr/_observatory.py, cut
--   at their awaits, over the sink. The stream, the drain request, the pauses of the callbacks and
--   the cancellations come in any order (`Step`).
-- - EnvMonitor: `_env_monitor_task` of src/flnr/_observatory.py over `_EnvironmentMonitorHandle`,
--   cut at its awaits in the same way.
-- - Fate, Lifecycle: src/flnr/fate.py and `_resolve_process_fate` of src/flnr/_echafaud.py, cut at its
--   three awaits. The child, the events and the timers move in any order (`Step`); how long a wait
--   lasts is not modelled.
-- - HostControl/Signals: `_ExternalTerminationInterposer` of src/flnr/_host_control/signals.py, over
--   the table of handlers of the process.
--   HostControl/Waker is src/flnr/_host_control/waker.py over a log of the calls of sockets and of the
--   event loop, each of which may raise; Waker/Status reads from the log whether a socket is open.
--   HostControl/Request is `HostTerminationRequest` and `_attach_host_termination` of
--   src/flnr/host_control.py.
-- - ProcessExit: `_wait_for_process_exit` of src/flnr/_process_utils.py, round by round.
-- - Tracing: src/flnr/command_tracing: EnvListing is env_listing.py, Posix is platform/_posix.py.
--   Tracing/Posix/Shell is a reader of shell words, the specification of the recipes. Windows is
--   platform/_windows.py, with `subprocess.list2cmdline`; Tracing/Windows/PowerShell reads its
--   literals and statements, Tracing/Windows/Arguments a command line as Windows programs do.
--   Tracer is tracer.py with _render.py.
-- - Rendering: src/flnr/_monitor_failure_rendering.py and the `__str__` of src/flnr/exceptions.py,
--   src/flnr/monitor_failure.py and src/flnr/fate.py.
-- - Runner: src/flnr/flnr.py: Report is `report_result` of `_RunnerScope` with the errors of
--   src/flnr/exceptions.py, Prepare is `_prepare_runner_args` with the checks of
--   src/flnr/host_control.py, Scope the resources of a run (`_RunnerScope`, src/flnr/_task_ledger.py)
--   and `run_ex`; what the calls raise and how the body of a run ends are arguments. Supervision is
--   that body: the fate coroutine, the readers, the environment monitors and the main coroutine
--   (`_run_ex_async` with `close_monitoring`) move in any order over the events, the failures and
--   the fate's task that they share; `share` gives each the shared values that a move has left.
-- - Base: names of the libraries, lists, texts as code points (Text), integers (Int, Decimal).
--
-- Not modelled: how long a wait lasts, an interrupted cleanup of a run, the release scripts and
-- experiments under attic. The calls of asyncio and of the operating system are the steps and
-- arguments of the models above.
pub mod Base
pub mod Outcome
pub mod Floats
pub mod Timeouts
pub mod PyValues
pub mod Routing
pub mod Monitors
pub mod Sink
pub mod Reader
pub mod EnvMonitor
pub mod HostControl
pub mod TextOutput
pub mod Tracing
pub mod Runner
pub mod Fate
pub mod Lifecycle
pub mod LineSplitter
pub mod ProcessExit
pub mod Rendering
