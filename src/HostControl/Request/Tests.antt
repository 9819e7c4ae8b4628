-- ===== src/HostControl/Request/Tests.antt =====
-- Runs and instances for `HostTerminationRequest` of src/flnr/host_control.py.
use flnr.Base.{◌≡◌, refl, false, none, List, [], ◌∷◌, map, inl, arith}
use flnr.HostControl.Signals.{Handlers, default_action}
use flnr.HostControl.Waker.{Behaviour, Host, log_call, make_socket, pair_call}
use flnr.HostControl.Waker.Status.{AllUnmade, AllUnmade-pair, AllUnmade-make}
use flnr.HostControl.Waker.Source.{both, Holds}
use flnr.HostControl.Request.{RequestOp, trigger_op, close_op, attach_op, apply, apply_all}
use flnr.HostControl.Request.Closing.{when_closed, apply_all-Holds, closed-dead}

abbrev quiet : Behaviour
quiet log = none

abbrev no_sockets : Host
no_sockets = record { next = 0; signalled = false; hung_up = false; calls = [] }

no_sockets-AllUnmade : AllUnmade no_sockets
no_sockets-AllUnmade i le = refl

-- A request was made.
abbrev with_pair : Host
with_pair = make_socket (make_socket (log_call pair_call no_sockets))

with_pair-AllUnmade : AllUnmade with_pair
with_pair-AllUnmade = AllUnmade-make (make_socket (log_call pair_call no_sockets)) (
    AllUnmade-make (log_call pair_call no_sockets) (AllUnmade-pair no_sockets no_sockets-AllUnmade))

with_pair-Holds : Holds 0 1 (both 0 1) with_pair
with_pair-Holds = record {
  reader_made = omega arith;
  writer_made = omega arith;
  distinct = λ e. omega arith;
  all_unmade = with_pair-AllUnmade;
  kept = inl (refl, refl, refl);
}

abbrev ops : List RequestOp
ops = attach_op ∷ trigger_op ∷ close_op ∷ attach_op ∷ close_op ∷ []

apply_all-Holds_example :
    let (s', h', results) = apply_all quiet ops (both 0 1) with_pair in Holds 0 1 s' h'
apply_all-Holds_example = apply_all-Holds quiet 0 1 ops (both 0 1) with_pair with_pair-Holds

closed-dead_example :
    let (s', h', result) = apply quiet close_op (both 0 1) with_pair in
    apply_all quiet ops s' h' ≡ (s', h', map when_closed ops)
closed-dead_example = closed-dead quiet 0 1 (both 0 1) with_pair with_pair-Holds ops

abbrev handlers : Handlers
handlers k = default_action
