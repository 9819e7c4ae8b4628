-- ===== src/HostControl/Waker/Tests.antt =====
-- Runs and instances for the wake-up source and its attachments
-- (src/flnr/_host_control/waker.py).
use flnr.Base.{◌≡◌, refl, true, false, Option, none, some, List, [], ◌∷◌}
use flnr.HostControl.Waker.{
  WakerError, not_implemented_error, Behaviour, Host, OsCall, add_reader_call, value, loop_reader,
  poller, polling, new_source, attach_socket_waker, attach_reader, attach_poller, dup_reader,
  detach, deactivate,
}
use flnr.HostControl.Waker.Status.{AllUnmade}
use flnr.HostControl.Waker.Source.{both, IsMade, new_source-IsMade}
use flnr.HostControl.Waker.Attached.{HasSocket}
use flnr.HostControl.Waker.Life.{
  Life, attached_life, LifeReach, begun, moved, loop_notifies, triggered, deactivates, notify,
  IsSound, LifeReach-IsSound,
}

abbrev first_host : Host
first_host = record { next = 3; signalled = false; hung_up = false; calls = [] }

first-AllUnmade : AllUnmade first_host
first-AllUnmade i le = refl

-- The loop has no `add_reader`, as on Windows.
abbrev when_last : Option WakerError → List OsCall → Option WakerError
when_last e [] = e
when_last e (add_reader_call d ∷ log) = when_last (some not_implemented_error) log
when_last e (c ∷ log) = when_last none log

abbrev no_readers : Behaviour
no_readers log = when_last none log

abbrev quiet : Behaviour
quiet log = none

new_source-IsMade_example : IsMade no_readers first_host (new_source no_readers first_host)
new_source-IsMade_example = new_source-IsMade no_readers first_host first-AllUnmade

abbrev with_source : Host
with_source = (new_source no_readers first_host).0

polled_attachment :
    (attach_socket_waker no_readers (both 3 4) with_source).1 ≡ value (poller 5 polling)
unfolding new_source attach_socket_waker attach_reader attach_poller dup_reader
polled_attachment = refl

-- The loop tells an attachment of the request, and the run deactivates it.
abbrev attached_host : Host
attached_host = (attach_socket_waker quiet (both 3 4) (new_source quiet first_host).0).0

attached_host-HasSocket : HasSocket 5 attached_host (value (loop_reader (some 5)))
unfolding new_source attach_socket_waker attach_reader dup_reader
attached_host-HasSocket = (refl, refl)

abbrev begins : Life
begins = attached_life (loop_reader (some 5)) attached_host

abbrev hears : Life
hears = record begins { host = record (begins.host) { signalled = true } }

abbrev told : Life
told = notify quiet 5 (some 5) hears

abbrev ends : Life
ends = record told { deactivated = true }

reached_end : LifeReach quiet 5 begins ends
unfolding notify detach deactivate
reached_end =
    moved (moved (moved begun (triggered begins)) (loop_notifies hears (some 5) refl refl))
      (deactivates told refl)

LifeReach-IsSound_example : IsSound quiet 5 ends
LifeReach-IsSound_example =
    LifeReach-IsSound quiet 5 (loop_reader (some 5)) attached_host attached_host-HasSocket
      reached_end
