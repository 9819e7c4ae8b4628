-- ===== src/Lifecycle/Progress.antt =====
-- `_resolve_process_fate` (src/flnr/_echafaud.py) ends: it is resumed three times at most, and it
-- never waits for something that cannot come.
use flnr.Base.{ℕ, suc, ◌≡◌, ◌⊎◌, Option}
use flnr.Floats.{PyFloat}
use flnr.Fate.{ProcessTerminationDecision, ProcessTerminationMethod}
use flnr.Lifecycle.{
  Phase, watching, terminating, confirming, resolved, failed, World, child_exits, reader_fails,
  host_requests, exit_seen, exit_task_raises, failure_seen, request_seen, Reach, begun, moved,
}

abbrev rank : Phase → ℕ
rank watching = 0
rank (terminating d) = 1
rank (confirming d m) = 2
rank (resolved f) = 3
rank failed = 3

-- The moves of the coroutine among the moves of a run.
abbrev pub resumptions : {run : Option PyFloat} {s w : World} → Reach run s w → ℕ
resumptions begun = 0
resumptions (moved r (child_exits _ _ _)) = resumptions r
resumptions (moved r (reader_fails _)) = resumptions r
resumptions (moved r (host_requests _)) = resumptions r
resumptions (moved r (exit_seen _ _ _)) = resumptions r
resumptions (moved r (exit_task_raises _ _)) = resumptions r
resumptions (moved r (failure_seen _ _)) = resumptions r
resumptions (moved r (request_seen _ _)) = resumptions r
resumptions (moved r _) = suc (resumptions r)

abbrev pub IsFinal : Phase → Type 0
IsFinal (resolved f) = Unit
IsFinal failed = Unit
IsFinal _ = ⊥

-- A continuation in which the child does nothing and the coroutine ends.
pub record Ends (run : Option PyFloat) (w : World) : Type 0 where
  pub last : World
  pub moves : Reach run w last
  pub same_code : last.returncode ≡ w.returncode
  pub final : IsFinal last.phase

-- What `confirm` leads to.
abbrev Confirms : World → World → Type 0
Confirms w v =
    (v.returncode ≡ w.returncode)
    × (IsFinal v.phase
        ⊎ ((d : ProcessTerminationDecision) × (m : ProcessTerminationMethod) × (v.phase
              ≡ confirming d m)))
