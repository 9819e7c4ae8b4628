-- ===== src/ProcessExit/Rounds.antt =====
-- When the wait for the exit of the process ends (src/flnr/_process_utils.py).
use flnr.Base.{◌≡◌, ◌≢◌, refl, ap, Bool, true, false, Option, none, some, List, [], ◌∷◌, ◌++◌}
use flnr.Base.Int.{ℤ}
use flnr.Monitors.{PyException}
use flnr.ProcessExit.{
  WaitTask, pending, returned, failed, Round, WaitEnd, still_waiting, exit_seen, raises,
  wait_rounds, wait_for_process_exit,
}

-- In these rounds the code was not known and the task did not raise.
abbrev pub AreQuiet : Option ℤ → List Round → Type 0
AreQuiet code [] = code ≡ none
AreQuiet code (r ∷ rounds) =
    (code ≡ none) × ((exc : PyException) → r.wait_task ≢ failed exc) × AreQuiet r.returncode rounds

-- The code at the beginning or after the last of the rounds.
abbrev pub last_code : Option ℤ → List Round → Option ℤ
last_code code [] = code
last_code code (r ∷ rounds) = last_code r.returncode rounds

-- Quiet rounds, and what then happened.
abbrev pub Explains : Option ℤ → List Round → WaitEnd → Type 0
Explains code rounds still_waiting = AreQuiet code rounds
Explains code rounds exit_seen =
    (before : List Round) × (after : List Round) × (c : ℤ) × (rounds ≡ before ++ after)
    × (last_code code before ≡ some c)
Explains code rounds (raises exc) =
    (before : List Round) × (r : Round) × (after : List Round) × (rounds ≡ before ++ r ∷ after)
    × AreQuiet code before
    × (r.wait_task ≡ failed exc)

next_round :
    (r : Round) (rounds : List Round) (e : WaitEnd)
    → ((exc : PyException) → r.wait_task ≢ failed exc)
    → Explains r.returncode rounds e
    → Explains none (r ∷ rounds) e
next_round r rounds still_waiting n h = (refl, n, h)
next_round r rounds exit_seen n (before, after, c, e, k) =
    (r ∷ before, after, c, ap (λ t. r ∷ t) e, k)
next_round r rounds (raises exc) n (before, s, after, e, q, k) =
    (r ∷ before, s, after, ap (λ t. r ∷ t) e, (refl, n, q), k)

wait_rounds-Explains :
    (code : Option ℤ) (rounds : List Round) → Explains code rounds (wait_rounds code rounds)
unfolding wait_rounds
wait_rounds-Explains (some c) rounds = ([], rounds, c, refl, refl)
wait_rounds-Explains none [] = refl
wait_rounds-Explains none (r ∷ rounds) =
    by_task (wait_rounds-Explains r.returncode rounds) r.wait_task refl
  where
    by_task :
        Explains r.returncode rounds (wait_rounds r.returncode rounds)
        → (t : WaitTask) → r.wait_task ≡ t
        → Explains none
            (r ∷ rounds)
            (elim t [ failed exc ↦ raises exc | _ ↦ wait_rounds r.returncode rounds ])
    by_task later pending e = next_round r rounds _ (λ exc q. cc) later
    by_task later returned e = next_round r rounds _ (λ exc q. cc) later
    by_task later (failed exc) e = ([], r, rounds, refl, refl, e)

abbrev pub is_waiting : WaitEnd → Bool
is_waiting still_waiting = true
is_waiting _ = false

-- The wait returns only once the return code of the process is known, with the task of
-- `process.wait()` done or not, and it raises only what that task raised while no code was known;
-- otherwise no code is known yet and the task has not raised. The task is cancelled on every way
-- out.
pub wait_for_process_exit-Explains :
    (code : Option ℤ) (rounds : List Round)
    → let (how, is_cancelled) = wait_for_process_exit code rounds in
      Explains code rounds how
      × (is_waiting how ≡ true → is_cancelled ≡ false)
      × (is_waiting how ≡ false → is_cancelled ≡ true)
unfolding wait_for_process_exit
wait_for_process_exit-Explains code rounds = (
  wait_rounds-Explains code rounds,
  (by_end (wait_rounds code rounds)).0,
  (by_end (wait_rounds code rounds)).1,
)
  where
    by_end :
        (e : WaitEnd)
        → (is_waiting e ≡ true → (elim e [ still_waiting ↦ false | _ ↦ true ]) ≡ false)
          × (is_waiting e ≡ false → (elim e [ still_waiting ↦ false | _ ↦ true ]) ≡ true)
    by_end still_waiting = (λ h. refl, λ h. cc)
    by_end exit_seen = (λ h. cc, λ h. refl)
    by_end (raises exc) = (λ h. cc, λ h. refl)
