-- ===== src/ProcessExit/Tests.antt =====
-- A run of the wait for the exit of the process (src/flnr/_process_utils.py).
use flnr.Base.{◌≡◌, refl, true, false, none, some, List, [], ◌∷◌}
use flnr.Base.Int.{pos}
use flnr.ProcessExit.{pending, returned, Round, exit_seen, wait_for_process_exit, wait_rounds}
use flnr.ProcessExit.Rounds.{Explains, is_waiting, wait_for_process_exit-Explains}

-- The task is done before the code is there, which the next round finds.
abbrev rounds : List Round
rounds =
    record { wait_task = pending; returncode = none }
    ∷ record { wait_task = returned; returncode = none }
    ∷ record { wait_task = returned; returncode = some (pos 3) }
    ∷ []

rounds-seen : wait_for_process_exit none rounds ≡ (exit_seen, true)
unfolding wait_for_process_exit wait_rounds
rounds-seen = refl

wait_for_process_exit-Explains_example :
    let (how, is_cancelled) = wait_for_process_exit none rounds in
    Explains none rounds how
    × (is_waiting how ≡ true → is_cancelled ≡ false)
    × (is_waiting how ≡ false → is_cancelled ≡ true)
wait_for_process_exit-Explains_example = wait_for_process_exit-Explains none rounds
