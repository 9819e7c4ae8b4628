-- ===== src/Fate.antt =====
-- The public outcome of a run: src/flnr/fate.py.
use flnr.Base.{Option}
use flnr.Base.Int.{ℤ}

pub data ProcessTerminationDecision : Type 0 where
  no_intervention timeout external_request internal_failure : ProcessTerminationDecision

pub data ProcessTerminationMethod : Type 0 where
  method_none terminate kill : ProcessTerminationMethod

pub record ProcessFate : Type 0 where
  pub termination_decision : ProcessTerminationDecision
  pub termination_method : ProcessTerminationMethod
  pub returncode : Option ℤ
