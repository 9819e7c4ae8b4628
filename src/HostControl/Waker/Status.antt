-- ===== src/HostControl/Waker/Status.antt =====
-- What the calls made (src/flnr/_host_control/waker.py) show of a socket: whether it is open, and
-- whether it was used when it was not.
use flnr.Base.{
  ℕ, ◌≤◌, ◌<◌, ◌≡◌, ◌≢◌, refl, subst, ◌∙◌, Bool, false, Option, none, some, List, [], ◌∷◌, ◌++◌,
  ◌==◌, if◌then◌else◌, arith,
}
use flnr.HostControl.Waker.{
  OsCall, pair_call, made, setblocking_call, send_call, dup_call, close_call, add_reader_call,
  remove_reader_call, create_task_call, cancel_call, select_call, Host, log_call, make_socket,
}

pub data SocketStatus : Type 0 where
  unmade opened closed misused : SocketStatus

-- The socket that a call names, if any.
abbrev pub named : OsCall → Option ℕ
named pair_call = none
named (made i) = some i
named (setblocking_call i) = some i
named (send_call i) = some i
named (dup_call i) = some i
named (close_call i) = some i
named (add_reader_call i) = some i
named (remove_reader_call i) = some i
named (create_task_call i) = some i
named (cancel_call i) = some i
named (select_call i) = some i

-- A socket is made once, used while it is open, and closed once. The calls of the poller's task do
-- not use the socket.
abbrev pub after_call : SocketStatus → OsCall → SocketStatus
after_call unmade (made i) = opened
after_call opened (made i) = misused
after_call opened (close_call i) = closed
after_call opened c = opened
after_call closed (create_task_call i) = closed
after_call closed (cancel_call i) = closed
after_call _ _ = misused

abbrev pub names : ℕ → OsCall → Bool
names i c = elim (named c) [ none ↦ false | some j ↦ i == j ]

abbrev pub status_from : ℕ → SocketStatus → List OsCall → SocketStatus
status_from i s [] = s
status_from i s (c ∷ cs) = status_from i (if names i c then after_call s c else s) cs

abbrev pub status : ℕ → List OsCall → SocketStatus
status i log = status_from i unmade log

status_from-append :
    (i : ℕ) (s : SocketStatus) (log : List OsCall) (c : OsCall)
    → status_from i s (log ++ c ∷ [])
      ≡ (if names i c then after_call (status_from i s log) c else status_from i s log)
status_from-append i s [] c = refl
status_from-append i s (d ∷ log) c =
    status_from-append i (if names i d then after_call s d else s) log c

-- A call that names the socket.
pub status-named :
    (i : ℕ) (log : List OsCall) (c : OsCall) (s : SocketStatus)
    → named c ≡ some i
    → status i log ≡ s
    → status i (log ++ c ∷ []) ≡ after_call s c
status-named i log c s n e = status_from-append i unmade log c ∙ ground arith

-- One that does not.
pub status-others :
    (i : ℕ) (log : List OsCall) (c : OsCall)
    → names i c ≡ false
    → status i (log ++ c ∷ []) ≡ status i log
status-others i log c n = status_from-append i unmade log c ∙ ground arith

pub is_closed : {s : SocketStatus} → s ≡ closed → s ≢ opened
is_closed k e = cc

pub is_unmade : {s : SocketStatus} → s ≡ unmade → s ≢ opened
is_unmade k e = cc

-- No socket was made with a number that is still to come.
abbrev pub AllUnmade : Host → Type 0
AllUnmade h = (i : ℕ) → h.next ≤ i → status i h.calls ≡ unmade

module _ (h : Host) (u : AllUnmade h) where
  pub made_opened : status h.next (make_socket h).calls ≡ opened
  made_opened = status-named h.next h.calls (made h.next) unmade refl (u h.next (omega arith))

  pub AllUnmade-make : AllUnmade (make_socket h)
  AllUnmade-make i le = status-others i h.calls (made h.next) (ground arith) ∙ u i (omega arith)

  pub AllUnmade-pair : AllUnmade (log_call pair_call h)
  AllUnmade-pair i le = status-others i h.calls pair_call refl ∙ u i le

  -- A call that names a socket that was made.
  pub AllUnmade-log :
      (j : ℕ) (c : OsCall) → named c ≡ some j → j < h.next → AllUnmade (log_call c h)
  AllUnmade-log j c e lt i le = status-others i h.calls c (ground arith) ∙ u i le

-- What a part of the code that has the socket `d` leaves alone.
pub record Within (d : ℕ) (h h' : Host) : Type 0 where
  pub others : (i : ℕ) → (i == d) ≡ false → status i h'.calls ≡ status i h.calls
  pub same_next : h'.next ≡ h.next
  pub same_signal : h'.signalled ≡ h.signalled
  pub same_end : h'.hung_up ≡ h.hung_up

pub Within-log : (d : ℕ) (c : OsCall) (h : Host) → named c ≡ some d → Within d h (log_call c h)
Within-log d c h e = record {
  others = λ i n. status-others i h.calls c (ground arith);
  same_next = refl;
  same_signal = refl;
  same_end = refl;
}

pub Within-trans : (d : ℕ) {h h' h'' : Host} → Within d h h' → Within d h' h'' → Within d h h''
Within-trans d a b = record {
  others = λ i n. b.others i n ∙ a.others i n;
  same_next = b.same_next ∙ a.same_next;
  same_signal = b.same_signal ∙ a.same_signal;
  same_end = b.same_end ∙ a.same_end;
}

pub AllUnmade-Within :
    (d : ℕ) (h h' : Host) → AllUnmade h → d < h.next → Within d h h' → AllUnmade h'
AllUnmade-Within d h h' u lt k i le =
    k.others i (ground arith) ∙ u i (subst (λ n. n ≤ i) k.same_next le)
