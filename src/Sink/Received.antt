-- ===== src/Sink/Received.antt =====
-- Disabling the monitors of a sink (src/flnr/_observatory.py) gives none of them any data.
use flnr.Base.{ℕ, ◌≡◌, sym, ◌∙◌, ap, List, [], ◌∷◌, append-nil, arith}
use flnr.Outcome.{Result, ok, chain_returned, ok_inj}
use flnr.Floats.{PyFloat}
use flnr.Monitors.{DisableReason}
use flnr.Sink.{
  disable_call, Handle, Monitoring, Behaviour, disable, for_each, disable_one, disable_all,
}
use flnr.Sink.Calls.{received, received-append}

module _ (i : ℕ) where
  -- A round that leaves what the monitor received, whenever it returns.
  abbrev Keeps : (Handle → Monitoring → Result (Handle × Monitoring)) → Type 0
  Keeps f =
      (h : Handle) (m : Monitoring) (h' : Handle) (m' : Monitoring)
      → f h m ≡ ok (h', m')
      → received i m'.calls ≡ received i m.calls

  for_each-Keeps :
      (f : Handle → Monitoring → Result (Handle × Monitoring))
      → Keeps f
      → (hs : List Handle) (m : Monitoring) (hs' : List Handle) (m' : Monitoring)
      → for_each f hs m ≡ ok (hs', m')
      → received i m'.calls ≡ received i m.calls
  unfolding for_each
  for_each-Keeps f k [] m hs' m' e = ap (λ (a, b). received i b.calls) (sym (ok_inj e))
  for_each-Keeps f k (h ∷ hs) m hs' m' e =
      let ((h₁, m₁), first, e₁) = chain_returned (f h m) e in
      let ((hs₂, m₂), others, e₂) = chain_returned (for_each f hs m₁) e₁ in
      ap (λ (a, b). received i b.calls) (sym (ok_inj e₂))
      ∙ for_each-Keeps f k hs m₁ hs₂ m₂ others
      ∙ k h m h₁ m₁ first

  disable-received :
      (raises : Behaviour) (reason : DisableReason) (ts : PyFloat) (h : Handle) (m : Monitoring)
      → received i (disable raises h reason ts m).1.calls ≡ received i m.calls
  unfolding disable
  disable-received raises reason ts h m = ground (
    arith,
    received-append i m.calls (disable_call h.monitor_index reason ts),
    append-nil (received i m.calls),
  )

  disable_one-Keeps :
      (raises : Behaviour) (reason : DisableReason) (ts : PyFloat)
      → Keeps (disable_one raises reason ts)
  unfolding disable_one
  disable_one-Keeps raises reason ts h m h' m' e =
      ground (arith, disable-received raises reason ts h m)

  -- What a monitor received stays the same.
  pub disable_all-received :
      (raises : Behaviour) (reason : DisableReason) (ts : PyFloat) (hs : List Handle)
      (m : Monitoring) (hs' : List Handle) (m' : Monitoring)
      → disable_all raises hs reason ts m ≡ ok (hs', m')
      → received i m'.calls ≡ received i m.calls
  unfolding disable_all
  disable_all-received raises reason ts hs m hs' m' e =
      for_each-Keeps (disable_one raises reason ts) (disable_one-Keeps raises reason ts) hs m hs' m'
        e
