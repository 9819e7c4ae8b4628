-- ===== src/Reader/Invariant.antt =====
-- The invariant of a reader's run (src/flnr/_observatory.py): what its monitors have been given and
-- what its flags say, at each await and each end of the relay.
use flnr.Base.{◌≡◌, Bool, true, false, List, [], ◌∷◌, ◌++◌, suc, ℕ}
use flnr.Sink.{Bytes, Handle, Call}
use flnr.Sink.Calls.{View}
use flnr.Sink.Loop.{Tracked}
use flnr.Sink.Lifetime.{InStep, IsClosed}
use flnr.Reader.{
  completed, cancelled, failed, unstarted, RelayPhase, created, reading, yielding, holding, ended,
  DrainPhase, assertion_failed, Reader,
}

-- A relay that ran and is over has left no monitor active.
abbrev pub Kept : RelayPhase → List Bytes → Handle → View → Type 0
Kept (ended unstarted) sent = InStep sent
Kept (ended how) sent = IsClosed sent
Kept _ sent = InStep sent

-- What was handed to the sink, of what was read: all of it but the chunk that is held; after a
-- failure or a cancellation, a part.
abbrev pub Fed : RelayPhase → List Bytes → List Bytes → Type 0
Fed (holding chunk ts) sent got = got ≡ sent ++ chunk ∷ []
Fed (ended cancelled) sent got = (rest : List Bytes) × (got ≡ sent ++ rest)
Fed (ended how) sent got = got ≡ sent
Fed _ sent got = got ≡ sent

abbrev pub is_failed : RelayPhase → Bool
is_failed (ended failed) = true
is_failed _ = false

abbrev pub is_assertion : DrainPhase → Bool
is_assertion assertion_failed = true
is_assertion _ = false

pub record IsSound (w : Reader) : Type 0 where
  pub sent : List Bytes
  pub tracked : Tracked (Kept w.relay sent) 0 w.handles w.monitoring.calls
  pub fed : Fed w.relay sent w.chunks_read
  pub fatal : w.fatal_reader_error ≡ is_failed w.relay
  pub errors : w.read_error ≡ is_failed w.relay
  pub asserted : is_assertion w.drain ≡ false

Tracked-map :
    (P Q : Handle → View → Type 0)
    → ((h : Handle) (v : View) → P h v → Q h v)
    → (k : ℕ) (hs : List Handle) (log : List Call) → Tracked P k hs log
    → Tracked Q k hs log
Tracked-map P Q f k [] log t = tt
Tracked-map P Q f k (h ∷ hs) log (e, p, t) = (e, f h _ p, Tracked-map P Q f (suc k) hs log t)

module _ (sent : List Bytes) (hs : List Handle) (log : List Call) where
  pub closed-InStep : Tracked (IsClosed sent) 0 hs log → Tracked (InStep sent) 0 hs log
  closed-InStep t = Tracked-map (IsClosed sent) (InStep sent) (λ h v (e, q). q) 0 hs log t

  pub Kept-InStep :
      (p : RelayPhase) → Tracked (Kept p sent) 0 hs log → Tracked (InStep sent) 0 hs log
  Kept-InStep created t = t
  Kept-InStep reading t = t
  Kept-InStep yielding t = t
  Kept-InStep (holding chunk ts) t = t
  Kept-InStep (ended completed) t = closed-InStep t
  Kept-InStep (ended cancelled) t = closed-InStep t
  Kept-InStep (ended failed) t = closed-InStep t
  Kept-InStep (ended unstarted) t = t

  pub closed-Kept :
      (p : RelayPhase) → Tracked (IsClosed sent) 0 hs log → Tracked (Kept p sent) 0 hs log
  closed-Kept created t = closed-InStep t
  closed-Kept reading t = closed-InStep t
  closed-Kept yielding t = closed-InStep t
  closed-Kept (holding chunk ts) t = closed-InStep t
  closed-Kept (ended completed) t = t
  closed-Kept (ended cancelled) t = t
  closed-Kept (ended failed) t = t
  closed-Kept (ended unstarted) t = closed-InStep t
