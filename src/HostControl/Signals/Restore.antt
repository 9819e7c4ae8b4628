-- ===== src/HostControl/Signals/Restore.antt =====
-- What the handlers of the process are during a run and after it
-- (src/flnr/_host_control/signals.py).
use flnr.Base.{
  ℕ, ◌≡◌, ◌≢◌, ◌⊎◌, refl, sym, ap, ◌∙◌, subst, Bool, true, false, Option, none, some, List, [], ◌∷◌,
  ◌==◌, if◌then◌else◌, arith, Bool-cases, inl, inr, ==_iff,
}
use flnr.Outcome.{PyError, Result, ok}
use flnr.HostControl.Signals.{
  Handler, default_action, ignored, interposer, foreign, callable, Handlers, Interposer,
  interposer_for, installed, old_handler, install, activate, restore, deactivate,
}

abbrev pub handles : ℕ → List ℕ → Bool
handles k [] = false
handles k (signo ∷ signals) = if k == signo then true else handles k signals

-- No signal is given twice.
abbrev pub AreDistinct : List ℕ → Type 0
AreDistinct [] = Unit
AreDistinct (signo ∷ signals) = (handles signo signals ≡ false) × AreDistinct signals

-- Each of the signals had a handler that Python can install again.
abbrev pub ArePython : List ℕ → Handlers → Type 0
ArePython [] table = Unit
ArePython (signo ∷ signals) table = (table signo ≢ foreign) × ArePython signals table

install-table :
    (signals : List ℕ) (table : Handlers) (old : List (ℕ × Handler)) (k : ℕ)
    → (install signals table old).0 k ≡ (if handles k signals then interposer else table k)
unfolding install
install-table [] table old k = refl
install-table (signo ∷ signals) table old k =
    ground (
      arith,
      install-table signals (installed table signo interposer) ((signo, table signo) ∷ old) k,
    )

install-old :
    (signals : List ℕ) (table : Handlers) (old : List (ℕ × Handler)) (k : ℕ)
    → AreDistinct signals
    → old_handler k (install signals table old).1
      ≡ (if handles k signals then some (table k) else old_handler k old)
unfolding install old_handler
install-old [] table old k d = refl
install-old (signo ∷ signals) table old k (new, d) =
    let ih =
      install-old signals (installed table signo interposer) ((signo, table signo) ∷ old) k d in
    elim (Bool-cases (k == signo)) [
      | inl e ↦
          let same = (==_iff k signo).0 e in
          let off = subst (λ s. handles s signals ≡ false) (sym same) new in
          rw (ih, off, e) (ap (λ s. some (table s)) (sym same))
      | inr e ↦ rw (ih, e) refl
    ]

restore-next :
    (old : List (ℕ × Handler)) (signo : ℕ) (signals : List ℕ) (table : Handlers) (h : Handler)
    → old_handler signo old ≡ some h
    → h ≢ foreign
    → restore old (signo ∷ signals) table ≡ restore old signals (installed table signo h)
unfolding restore
restore-next old signo signals table default_action e ne = rw (e, restore) refl
restore-next old signo signals table ignored e ne = rw (e, restore) refl
restore-next old signo signals table interposer e ne = rw (e, restore) refl
restore-next old signo signals table foreign e ne = absurd (ne refl)
restore-next old signo signals table (callable id) e ne = rw (e, restore) refl

-- Where a table ends up in which the signals got back their handlers of `before`.
abbrev IsRestored : List ℕ → Handlers → Handlers → Handlers × Option PyError → Type 0
IsRestored signals before table (after, failed) =
    (failed ≡ none) × ((k : ℕ) → after k ≡ (if handles k signals then before k else table k))

handles_next :
    (k signo : ℕ) (signals : List ℕ) → handles k signals ≡ true → handles k (signo ∷ signals) ≡ true
handles_next k signo signals h = ground arith

handles_self : (signo : ℕ) (signals : List ℕ) → handles signo (signo ∷ signals) ≡ true
handles_self signo signals = ground arith

same_both : (b : Bool) (h : Handler) → (if b then h else h) ≡ h
same_both true h = refl
same_both false h = refl

restore-IsRestored :
    (old : List (ℕ × Handler)) (signals : List ℕ) (before table : Handlers)
    → ((k : ℕ) → handles k signals ≡ true → old_handler k old ≡ some (before k))
    → ArePython signals before
    → IsRestored signals before table (restore old signals table)
unfolding restore
restore-IsRestored old [] before table kept p = (refl, λ k. refl)
restore-IsRestored old (signo ∷ signals) before table kept (ne, p) =
    let step =
      restore-next old signo signals table (before signo) (kept signo (handles_self signo signals))
        ne in
    let (fine, after) =
      restore-IsRestored old signals before (installed table signo (before signo))
        (λ k h. kept k (handles_next k signo signals h)) p in
    subst (IsRestored (signo ∷ signals) before table) (sym step)
      (fine, λ k. after k ∙ both k (Bool-cases (k == signo)))
  where
    both :
        (k : ℕ)
        → ((k == signo) ≡ true) ⊎ ((k == signo) ≡ false)
        → (if handles k signals then before k else installed table signo (before signo) k)
          ≡ (if handles k (signo ∷ signals) then before k else table k)
    both k (inl e) =
        rw (e, ap before (sym ((==_iff k signo).0 e))) (same_both (handles k signals) (before k))
    both k (inr e) = rw e refl

module _ (signals : List ℕ) (table : Handlers) where
  -- What a run of the process's handlers shows: while the interposer is active and after it.
  pub record Owns (r : Result (Interposer × Handlers)) : Type 0 where
    pub active : Interposer
    pub during : Handlers
    pub returned : r ≡ ok (active, during)
    pub owned : (k : ℕ) → during k ≡ (if handles k signals then interposer else table k)
    pub failed : (deactivate true active during).1 ≡ none
    pub given_back : (k : ℕ) → (deactivate true active during).0 k ≡ table k

  -- On the main thread a new interposer takes over exactly its signals, and after its deactivation
  -- every signal has the handler that it had before, provided that no signal is given twice and
  -- that Python can install each of the old handlers again.
  pub activate-Owns :
      AreDistinct signals
      → ArePython signals table
      → Owns (activate true (interposer_for signals) table)
  unfolding activate deactivate interposer_for
  activate-Owns d p =
      let (during, old) = install signals table [] in
      let kept : (k : ℕ) → handles k signals ≡ true → old_handler k old ≡ some (table k) =
        λ k h. install-old signals table [] k d ∙ pick k h in
      let owned = install-table signals table [] in
      let (fine, after) = restore-IsRestored old signals table during kept p in
      record {
        active = record { handled_signals = signals; old_handlers = some old; has_loop = true };
        during = during;
        returned = refl;
        owned = owned;
        failed = fine;
        given_back = λ k. after k ∙ either_way k (handles k signals) (owned k);
      }
    where
      pick :
          (k : ℕ)
          → handles k signals ≡ true
          → (if handles k signals then some (table k) else none) ≡ some (table k)
      pick k h = ap (λ b. if b then some (table k) else none) h

      either_way :
          (k : ℕ) (b : Bool)
          → (install signals table []).0 k ≡ (if b then interposer else table k)
          → (if b then table k else (install signals table []).0 k) ≡ table k
      either_way k true e = refl
      either_way k false e = e
