-- ===== src/HostControl/Request/Giving.antt =====
-- What a run gives back of the host's control (src/flnr/host_control.py): the signal handlers of the
-- process, and the socket of its attachment.
use flnr.Base.{ℕ, ◌≤◌, ◌<◌, ◌≡◌, ◌≢◌, ◌⊎◌, true, false, ◌==◌}
use flnr.HostControl.Signals.{Handlers}
use flnr.HostControl.Signals as Signals
use flnr.HostControl.Waker.{WakerError, Host, Behaviour, polling, is_fallback}
use flnr.HostControl.Waker as Waker
use flnr.HostControl.Waker.Status.{opened, closed, status}
use flnr.HostControl.Waker.Source.{both, Holds}
use flnr.HostControl.Request.{
  RequestError, Control, no_control, host_signals, request, Attached, attached, not_attached,
  closed_as, use_of_closed, deactivate_attachment,
}

-- The handlers are as before, the sockets too, and none was left open that was made since.
pub record GivesBack (table : Handlers) (h : Host) (table' : Handlers) (h' : Host) : Type 0 where
  pub handlers : (k : ℕ) → table' k ≡ table k
  pub sockets : (i : ℕ) → i < h.next → status i h'.calls ≡ status i h.calls
  pub none_left : (i : ℕ) → h.next ≤ i → status i h'.calls ≢ opened

-- What `add_reader` raised and no `except` of the code expects.
abbrev pub IsUnexpected : RequestError → Type 0
IsUnexpected e = (x : WakerError) × (is_fallback x ≡ false) × (e ≡ closed_as use_of_closed x)

-- A request that is not closed.
abbrev pub IsReady : Control → Host → Type 0
IsReady no_control h = Unit
IsReady host_signals h = Unit
IsReady (request s) h = (r : ℕ) × (w : ℕ) × (Holds r w s h) × (s ≡ both r w)

-- The socket is closed, and the others are as they were.
abbrev Closes : ℕ → Host → Host → Type 0
Closes d h h' =
    (status d h'.calls ≡ closed)
    × ((i : ℕ) → (i == d) ≡ false → status i h'.calls ≡ status i h.calls)

module _ (raises : Behaviour) where
  abbrev pub IsBalanced : Handlers → Host → Handlers × Host × Attached → Type 0
  IsBalanced table h (table', h', attached a) =
      let (table'', h'', e) = deactivate_attachment raises true a table' h' in
      GivesBack table h table'' h''
  IsBalanced table h (table', h', not_attached e) = GivesBack table h table' h' ⊎ IsUnexpected e
