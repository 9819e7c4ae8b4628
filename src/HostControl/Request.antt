-- ===== src/HostControl/Request.antt =====
-- `HostTerminationRequest` and `_attach_host_termination` of src/flnr/host_control.py, over the
-- wake-up source and the signal handlers of src/flnr/_host_control.
pub mod Closing
pub mod Giving
mod Tests
use flnr.Base.{ℕ, String, Bool, true, false, Option, none, some, List, [], ◌∷◌}
use flnr.Outcome.{PyError, err, ok}
use flnr.HostControl.Signals.{Interposer, interposer_for, Handlers}
use flnr.HostControl.Signals as Signals
use flnr.HostControl.Waker.{
  WakerError, closed_wakeup_source_error, Host, WakeupSource, Returned, value, raised, Behaviour,
  Attachment, trigger, close_source, attach_socket_waker,
}
use flnr.HostControl.Waker as Waker

-- What the methods raise: the exception of a call, an OSError of their own, or that of a signal
-- handler's activation.
pub data RequestError : Type 0 where
  passed_on : WakerError → RequestError
  os_error : String → RequestError
  of_signals : PyError → RequestError

-- `host_termination=...` of a run; a request is its `_source`.
pub data Control : Type 0 where
  no_control host_signals : Control
  request : WakeupSource → Control

pub data HostAttachment : Type 0 where
  null_attachment : HostAttachment
  signal_attachment : Interposer → HostAttachment
  waker_attachment : Attachment → HostAttachment

pub data Attached : Type 0 where
  attached : HostAttachment → Attached
  not_attached : RequestError → Attached

abbrev pub already_closed : RequestError
already_closed = os_error "HostTerminationRequest is already closed"

abbrev pub use_of_closed : RequestError
use_of_closed = os_error "attempting to use closed HostTerminationRequest"

-- `except _ClosedWakeupSourceError`
abbrev pub closed_as : RequestError → WakerError → RequestError
closed_as e closed_wakeup_source_error = e
closed_as e other = passed_on other

-- `[signal.SIGINT, signal.SIGTERM]`
abbrev pub termination_signals : List ℕ
termination_signals = 2 ∷ 15 ∷ []

-- The operations of a request that its owner and the runs call.
pub data RequestOp : Type 0 where
  trigger_op close_op attach_op : RequestOp

pub data OpResult : Type 0 where
  done : OpResult
  run_attached : HostAttachment → OpResult
  failed : RequestError → OpResult

abbrev pub op_result : Option RequestError → OpResult
op_result none = done
op_result (some e) = failed e

abbrev pub attach_result : Attached → OpResult
attach_result (attached a) = run_attached a
attach_result (not_attached e) = failed e

module _ (raises : Behaviour) where
  -- `HostTerminationRequest.trigger`
  pub request_trigger : WakeupSource → Host → Host × Option RequestError
  request_trigger s h =
      let (h', e) = trigger raises s h in
      (h', elim e [ none ↦ none | some exc ↦ some (passed_on exc) ])

  -- `HostTerminationRequest.close`
  pub request_close : WakeupSource → Host → WakeupSource × Host × Option RequestError
  request_close s h =
      let (s', h', e) = close_source raises s h in
      (s', h', elim e [ none ↦ none | some exc ↦ some (closed_as already_closed exc) ])

  -- `HostTerminationRequest._attach`
  pub request_attach : WakeupSource → Host → Host × Attached
  request_attach s h =
      let (h', a) = attach_socket_waker raises s h in
      (
        h',
        elim a [
          | value made ↦ attached (waker_attachment made)
          | raised exc ↦ not_attached (closed_as use_of_closed exc)
        ],
      )

  -- `_attach_host_termination`, on the main thread or not
  pub attach_host_termination : Bool → Control → Handlers → Host → Handlers × Host × Attached
  unfolding request_attach
  attach_host_termination in_main_thread no_control table h = (table, h, attached null_attachment)
  attach_host_termination in_main_thread host_signals table h =
      elim (Signals.activate in_main_thread (interposer_for termination_signals) table) [
        | err exc ↦ (table, h, not_attached (of_signals exc))
        | ok (i, table') ↦ (table', h, attached (signal_attachment i))
      ]
  attach_host_termination in_main_thread (request s) table h =
      let (h', a) = request_attach s h in (table, h', a)

  -- the `deactivate` of each attachment
  pub deactivate_attachment :
      Bool → HostAttachment → Handlers → Host → Handlers × Host × Option RequestError
  deactivate_attachment in_main_thread null_attachment table h = (table, h, none)
  deactivate_attachment in_main_thread (signal_attachment i) table h =
      let (table', e) = Signals.deactivate in_main_thread i table in
      (table', h, elim e [ none ↦ none | some exc ↦ some (of_signals exc) ])
  deactivate_attachment in_main_thread (waker_attachment a) table h =
      let (a', h', e) = Waker.deactivate raises a h in
      (table, h', elim e [ none ↦ none | some exc ↦ some (passed_on exc) ])

  pub apply : RequestOp → WakeupSource → Host → WakeupSource × Host × OpResult
  unfolding request_trigger request_close request_attach
  apply trigger_op s h = let (h', e) = request_trigger s h in (s, h', op_result e)
  apply close_op s h = let (s', h', e) = request_close s h in (s', h', op_result e)
  apply attach_op s h = let (h', a) = request_attach s h in (s, h', attach_result a)

  pub apply_all : List RequestOp → WakeupSource → Host → WakeupSource × Host × List OpResult
  unfolding apply
  apply_all [] s h = (s, h, [])
  apply_all (op ∷ ops) s h =
      let (s', h', r) = apply op s h in
      let (s'', h'', rs) = apply_all ops s' h' in (s'', h'', r ∷ rs)
