-- ===== src/Sink/Loop.antt =====
-- The rule for a loop over the handles of a sink (src/flnr/_observatory.py): what each round does
-- to its own monitor, the loop does to each, since a round leaves the other monitors alone.
use flnr.Base.{ℕ, suc, ◌≤◌, ◌<◌, ◌≡◌, ◌≢◌, refl, sym, subst, ◌∙◌, List, [], ◌∷◌, arith, ap}
use flnr.Outcome.{Result, ok}
use flnr.Sink.{Handle, Monitoring, for_each, Call}
use flnr.Sink.Calls.{View, view}

-- The handles are numbered from `k` on, and each is in `Q` with what the log shows of it.
abbrev pub Tracked : (Handle → View → Type 0) → ℕ → List Handle → List Call → Type 0
Tracked Q k [] log = Unit
Tracked Q k (h ∷ hs) log = (h.monitor_index ≡ k) × Q h (view k log) × Tracked Q (suc k) hs log

-- What a round has done for its handle.
pub record Round (Q : Handle → View → Type 0) (h : Handle) (m : Monitoring)
    (r : Result (Handle × Monitoring)) : Type 0 where
  pub after : Handle
  pub monitoring : Monitoring
  pub returned : r ≡ ok (after, monitoring)
  pub same_index : after.monitor_index ≡ h.monitor_index
  pub kept : Q after (view h.monitor_index monitoring.calls)
  pub others : (j : ℕ) → j ≢ h.monitor_index → view j monitoring.calls ≡ view j m.calls

-- What the loop has done from the handle with number `k` on.
pub record Loop (Q : Handle → View → Type 0) (k : ℕ) (m : Monitoring)
    (r : Result (List Handle × Monitoring)) : Type 0 where
  pub after : List Handle
  pub monitoring : Monitoring
  pub returned : r ≡ ok (after, monitoring)
  pub tracked : Tracked Q k after monitoring.calls
  pub before : (j : ℕ) → j < k → view j monitoring.calls ≡ view j m.calls

Tracked-frame :
    (Q : Handle → View → Type 0) (k : ℕ) (hs : List Handle) (log log' : List Call)
    → ((j : ℕ) → k ≤ j → view j log' ≡ view j log)
    → Tracked Q k hs log
    → Tracked Q k hs log'
Tracked-frame Q k [] log log' same t = tt
Tracked-frame Q k (h ∷ hs) log log' same (e, q, t) = (
  e,
  subst (Q h) (sym (same k (omega arith))) q,
  Tracked-frame Q (suc k) hs log log' (λ j le. same j (omega arith)) t,
)

module _ (P Q : Handle → View → Type 0) (f : Handle → Monitoring → Result (Handle × Monitoring))
    (round : (h : Handle) (m : Monitoring)
      → P h (view h.monitor_index m.calls)
      → Round Q h m (f h m)) where
  pub for_each-Loop :
      (k : ℕ) (hs : List Handle) (m : Monitoring)
      → Tracked P k hs m.calls
      → Loop Q k m (for_each f hs m)
  unfolding for_each
  for_each-Loop k [] m t = record {
    after = [];
    monitoring = m;
    returned = refl;
    tracked = tt;
    before = λ j h. refl;
  }
  for_each-Loop k (h ∷ hs) m (e, p, t) =
      let r = round h m (subst (λ i. P h (view i m.calls)) (sym e) p) in
      let later : Tracked P (suc k) hs r.monitoring.calls =
        Tracked-frame P (suc k) hs m.calls r.monitoring.calls (λ j le. r.others j (omega arith))
          t in
      let l = for_each-Loop (suc k) hs r.monitoring later in
      record {
        after = r.after ∷ l.after;
        monitoring = l.monitoring;
        returned = rw (r.returned, l.returned);
        tracked = (
          r.same_index ∙ e,
          subst (Q r.after) (ap (λ i. view i r.monitoring.calls) e ∙ sym (l.before k (omega arith)))
              r.kept,
          l.tracked,
        );
        before = λ j lt. l.before j (omega arith) ∙ r.others j (omega arith);
      }
