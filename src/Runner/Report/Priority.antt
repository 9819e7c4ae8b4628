-- ===== src/Runner/Report/Priority.antt =====
-- Which outcome `report_result` of src/flnr/flnr.py gives, and what an error carries.
use flnr.Base.{
  ◌≡◌, ◌↔◌, ◌⊎◌, sym, ap, subst, Bool, true, false, not, ◌&&◌, Option, none, some, List, [], ◌∷◌,
  if◌then◌else◌, nonempty, arith, is_some, Option-cases, inl, inr,
}
use flnr.Base.Int.{ℤ, pos, negsuc, nonzero}
use flnr.Fate.{ProcessFate}
use flnr.Monitors.{PyException, MonitorFailure}
use flnr.Runner.Report.{
  ErrorClass, command_failed, monitor_failed, supervision_failed, process_kill_failed, TaskEnd,
  completed, cancelled, failed, Report, returned, raised, internal_failures, report_result,
}

abbrev pub differs_from_zero : Option ℤ → Bool
differs_from_zero none = false
differs_from_zero (some code) = nonzero code

-- No task ended in an exception.
abbrev pub NoneFailed : List TaskEnd → Type 0
NoneFailed [] = Unit
NoneFailed (failed exc ∷ tasks) = ⊥
NoneFailed (_ ∷ tasks) = NoneFailed tasks

internal_failures-nil : (tasks : List TaskEnd) → (internal_failures tasks ≡ []) ↔ NoneFailed tasks
unfolding internal_failures
internal_failures-nil [] = ground arith
internal_failures-nil (failed exc ∷ tasks) = (λ e. cc, λ h. absurd h)
internal_failures-nil (completed ∷ tasks) = internal_failures-nil tasks
internal_failures-nil (cancelled ∷ tasks) = internal_failures-nil tasks

code_zero : (code : ℤ) → nonzero code ≡ false → code ≡ pos 0
code_zero (pos n) h = ground arith
code_zero (negsuc n) h = cc

module _ (check : Bool) (tasks : List TaskEnd) (failures : List MonitorFailure)
    (fate : ProcessFate) where
  -- The code of the process object matters only where the fate has one.
  pub report_result_code :
      (code : Option ℤ)
      → (fate.returncode ≡ code) ⊎ (fate.returncode ≡ none)
      → report_result check tasks failures code fate
        ≡ report_result check tasks failures fate.returncode fate
  unfolding report_result
  report_result_code code (inl e) = ap (λ c. report_result check tasks failures c fate) (sym e)
  report_result_code code (inr e) = rw e

  only_if :
      report_result check tasks failures fate.returncode fate ≡ returned fate
      → (is_some fate.returncode ≡ true)
        × (internal_failures tasks ≡ [])
        × ((check ≡ false) ⊎ (fate.returncode ≡ some (pos 0)))
        × (failures ≡ [])
  unfolding report_result
  only_if h = elim (Option-cases fate.returncode) [
    | inl unseen ↦ ground arith
    | inr (code, seen) ↦ ground (arith, code_zero code)
  ]

  -- A run returns its fate exactly when the exit was observed, no task failed, the code is 0 if it
  -- is checked, and no monitor failed.
  pub report_result-returned :
      (report_result check tasks failures fate.returncode fate ≡ returned fate) ↔ (
        (is_some fate.returncode ≡ true)
        × NoneFailed tasks
        × ((check ≡ false) ⊎ (fate.returncode ≡ some (pos 0)))
        × (failures ≡ []))
  unfolding report_result
  report_result-returned = (
    λ h. let (a, b, c, d) = only_if h in (a, (internal_failures-nil tasks).0 b, c, d),
    λ (a, b, c, d). let none_failed = (internal_failures-nil tasks).1 b in ground arith,
  )

  -- The class that has priority where several things went wrong.
  abbrev pub first_wrong : Option ErrorClass
  first_wrong =
      if not (is_some fate.returncode)
      then some process_kill_failed
      else if nonempty (internal_failures tasks)
      then some supervision_failed
      else if check && differs_from_zero fate.returncode
      then some command_failed
      else if nonempty failures
      then some monitor_failed
      else none

  -- What an error of the class carries.
  abbrev pub carried : ErrorClass → List PyException
  carried process_kill_failed = internal_failures tasks
  carried supervision_failed = internal_failures tasks
  carried command_failed = []
  carried monitor_failed = []

  abbrev pub IsReport : Option ErrorClass → Report → Type 0
  IsReport none (returned f) = f ≡ fate
  IsReport (some c) (raised e) =
      (e.error_class ≡ c)
      × (e.fate ≡ fate)
      × (e.monitor_failures ≡ failures)
      × (e.internal_exceptions ≡ carried c)
  IsReport _ _ = ⊥

  -- The outcome is decided in this order: no exit was observed, a task failed, a checked code is
  -- not 0, a monitor failed. Each error carries the fate and every monitor failure, and the first
  -- two all exceptions of the tasks. The assertion never fails.
  pub report_result-IsReport :
      IsReport first_wrong (report_result check tasks failures fate.returncode fate)
  unfolding report_result
  report_result-IsReport = elim (Option-cases fate.returncode) [
    | inl unseen ↦ ground arith
    | inr (code, seen) ↦ ground arith
  ]

  -- A fate that is returned is the run's.
  pub returned_fate :
      (f : ProcessFate)
      → report_result check tasks failures fate.returncode fate ≡ returned f
      → f ≡ fate
  returned_fate f e = at first_wrong (subst (IsReport first_wrong) e report_result-IsReport)
    where
      at : (c : Option ErrorClass) → IsReport c (returned f) → f ≡ fate
      at none h = h
      at (some c) h = absurd h
