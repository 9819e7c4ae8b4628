-- ===== src/Sink/Calls.antt =====
-- What the log of a sink (src/flnr/_observatory.py) shows of one monitor: where it is in its life,
-- and the chunks that it was given.
use flnr.Base.{
  ℕ, ◌≡◌, ◌≢◌, refl, true, false, List, [], ◌∷◌, ◌++◌, ◌==◌, if◌then◌else◌, arith, append-nil,
  append_assoc,
}
use flnr.Floats.{PyFloat}
use flnr.Monitors.{DisableReason}
use flnr.Sink.{Bytes, Call, process_call, disable_call}

-- A monitor may be given data until it is told that it is disabled, once; any call after that is a
-- violation of the interface.
pub data Status : Type 0 where
  listening closed violated : Status

abbrev pub after_process : Status → Status
after_process listening = listening
after_process closed = violated
after_process violated = violated

abbrev pub after_disable : Status → Status
after_disable listening = closed
after_disable closed = violated
after_disable violated = violated

-- One more call, seen by the monitor with index `i`.
abbrev pub status_after : ℕ → Status → Call → Status
status_after i s (process_call j chunk ts) = if i == j then after_process s else s
status_after i s (disable_call j reason ts) = if i == j then after_disable s else s

abbrev pub status_from : ℕ → Status → List Call → Status
status_from i s [] = s
status_from i s (c ∷ cs) = status_from i (status_after i s c) cs

abbrev pub status : ℕ → List Call → Status
status i log = status_from i listening log

abbrev pub chunk_of : ℕ → Call → List Bytes
chunk_of i (process_call j chunk ts) = if i == j then chunk ∷ [] else []
chunk_of i (disable_call j reason ts) = []

-- The chunks that the monitor was given, in order.
abbrev pub received : ℕ → List Call → List Bytes
received i [] = []
received i (c ∷ cs) = chunk_of i c ++ received i cs

status_from-append :
    (i : ℕ) (s : Status) (log : List Call) (c : Call)
    → status_from i s (log ++ c ∷ []) ≡ status_after i (status_from i s log) c
status_from-append i s [] c = refl
status_from-append i s (d ∷ log) c = status_from-append i (status_after i s d) log c

pub status-append :
    (i : ℕ) (log : List Call) (c : Call)
    → status i (log ++ c ∷ []) ≡ status_after i (status i log) c
status-append i log c = status_from-append i listening log c

pub received-append :
    (i : ℕ) (log : List Call) (c : Call)
    → received i (log ++ c ∷ []) ≡ received i log ++ chunk_of i c
received-append i [] c = rw append-nil
received-append i (d ∷ log) c = rw (received-append i log c, append_assoc)

-- What the log shows, in one.
abbrev pub View : Type 0
View = Status × List Bytes

abbrev pub view : ℕ → List Call → View
view i log = (status i log, received i log)

abbrev pub view_after : ℕ → View → Call → View
view_after i (s, chunks) c = (status_after i s c, chunks ++ chunk_of i c)

pub view-append :
    (i : ℕ) (log : List Call) (c : Call) → view i (log ++ c ∷ []) ≡ view_after i (view i log) c
view-append i log c = rw (status-append i log c, received-append i log c)

same_index : (i : ℕ) → (i == i) ≡ true
same_index i = ground arith

other_index : (i j : ℕ) → j ≢ i → (j == i) ≡ false
other_index i j h = ground arith

module _ (i : ℕ) (log : List Call) (ts : PyFloat) where
  pub view-process_self :
      (chunk : Bytes)
      → view i (log ++ process_call i chunk ts ∷ [])
        ≡ (after_process (status i log), received i log ++ chunk ∷ [])
  view-process_self chunk = rw (view-append i log (process_call i chunk ts), same_index i)

  pub view-disable_self :
      (reason : DisableReason)
      → view i (log ++ disable_call i reason ts ∷ [])
        ≡ (after_disable (status i log), received i log)
  view-disable_self reason =
      rw (view-append i log (disable_call i reason ts), same_index i, append-nil)

  pub view-process_ne :
      (j : ℕ) (chunk : Bytes) → j ≢ i → view j (log ++ process_call i chunk ts ∷ []) ≡ view j log
  view-process_ne j chunk ne =
      rw (view-append j log (process_call i chunk ts), other_index i j ne, append-nil)

  pub view-disable_ne :
      (j : ℕ) (reason : DisableReason)
      → j ≢ i
      → view j (log ++ disable_call i reason ts ∷ []) ≡ view j log
  view-disable_ne j reason ne =
      rw (view-append j log (disable_call i reason ts), other_index i j ne, append-nil)
