-- ===== src/Timeouts/Validity.antt =====
-- What `ExecutionTimeouts` of src/flnr/timeouts.py accepts, and what is then used to wait.
use flnr.Base.{
  ℕ, String, ◌≡◌, refl, Bool, true, false, Option, none, some, if◌then◌else◌, arith, ◌↔◌, ◌⊎◌,
}
use mathlib.Core.Option.{get_or}
use flnr.Base.Int.{pos, ◌<ℤ◌, leb_ℤ}
use flnr.Outcome.{Result, ok, err, value_error, ◌>>=◌}
use flnr.Floats.{PyFloat, nan, inf, neg_inf, finite, float_lt, float_max, four_poll_periods}
use flnr.Timeouts.{
  ExecutionTimeouts, check_timeout_value, check_optional_timeout_value, execution_timeouts,
  kill_or_terminate, effective_death_confirmation_timeout,
}

-- A finite number of seconds above zero.
abbrev pub IsDuration : PyFloat → Type 0
IsDuration (finite n) = pos 0 <ℤ n
IsDuration nan = ⊥
IsDuration inf = ⊥
IsDuration neg_inf = ⊥

abbrev pub IsOptionalDuration : Option PyFloat → Type 0
IsOptionalDuration none = Unit
IsOptionalDuration (some v) = IsDuration v

pub record AreDurations (t : ExecutionTimeouts) : Type 0 where
  pub run : IsOptionalDuration t.run
  pub terminate : IsDuration t.terminate
  pub output_drain : IsDuration t.output_drain
  pub kill : IsOptionalDuration t.kill

check_timeout_value-ok : (v : PyFloat) (m : String) → check_timeout_value v m ≡ ok tt → IsDuration v
unfolding check_timeout_value
check_timeout_value-ok (finite n) m h = ground arith
check_timeout_value-ok _ m h = cc

IsDuration-check : (v : PyFloat) (m : String) → IsDuration v → check_timeout_value v m ≡ ok tt
unfolding check_timeout_value
IsDuration-check (finite n) m h = ground arith
IsDuration-check nan m h = elim h [ ]
IsDuration-check inf m h = elim h [ ]
IsDuration-check neg_inf m h = elim h [ ]

check_optional_iff :
    (v : Option PyFloat) (m : String)
    → (check_optional_timeout_value v m ≡ ok tt) ↔ IsOptionalDuration v
unfolding check_optional_timeout_value
check_optional_iff none m = (λ _. tt, λ _. refl)
check_optional_iff (some v) m = (check_timeout_value-ok v m, IsDuration-check v m)

then_ok :
    {A : Type 0} (m : Result (Unit {0})) (k : Result A) {a : A}
    → (m >>= λ _. k) ≡ ok a
    → (m ≡ ok tt) × (k ≡ ok a)
then_ok (ok tt) k h = (refl, h)
then_ok (err e) k h = cc

-- The four checks behind the constructor, each with its result.
passed :
    (t : ExecutionTimeouts)
    → execution_timeouts t.run t.terminate t.output_drain t.kill ≡ ok t
    → (check_optional_timeout_value t.run "run timeout must be either None or > 0" ≡ ok tt)
      × (check_timeout_value t.terminate "terminate timeout must be > 0" ≡ ok tt)
      × (check_timeout_value t.output_drain "output_drain timeout must be > 0" ≡ ok tt)
      × (check_optional_timeout_value t.kill "kill timeout must be either None or > 0" ≡ ok tt)
unfolding execution_timeouts
passed t h = ground arith

-- The constructor of `ExecutionTimeouts` returns exactly when every timeout is a finite number
-- above zero, where `run` and `kill` may also be None.
pub execution_timeouts_iff :
    (t : ExecutionTimeouts)
    → (execution_timeouts t.run t.terminate t.output_drain t.kill ≡ ok t) ↔ AreDurations t
unfolding execution_timeouts
execution_timeouts_iff t = (
  λ h.
      let (run, terminate, drain, kill) = passed t h in
      record {
        run = (check_optional_iff t.run _).0 run;
        terminate = check_timeout_value-ok t.terminate _ terminate;
        output_drain = check_timeout_value-ok t.output_drain _ drain;
        kill = (check_optional_iff t.kill _).0 kill;
      },
  λ d. rw (
    (check_optional_iff t.run _).1 d.run,
    IsDuration-check t.terminate _ d.terminate,
    IsDuration-check t.output_drain _ d.output_drain,
    (check_optional_iff t.kill _).1 d.kill,
  ),
)

-- The first refused field, in the order of `__post_init__`.
abbrev pub refused : Option PyFloat → Bool
refused none = false
refused (some (finite n)) = leb_ℤ n (pos 0)
refused (some nan) = true
refused (some inf) = true
refused (some neg_inf) = true

abbrev pub first_message : ExecutionTimeouts → Option String
first_message t =
    if refused t.run
    then some "run timeout must be either None or > 0"
    else if refused (some t.terminate)
    then some "terminate timeout must be > 0"
    else if refused (some t.output_drain)
    then some "output_drain timeout must be > 0"
    else if refused t.kill
    then some "kill timeout must be either None or > 0"
    else none

abbrev pub outcome : ExecutionTimeouts → Option String → Result ExecutionTimeouts
outcome t none = ok t
outcome t (some message) = err (value_error message)

check_timeout_value-refused :
    (v : PyFloat) (m : String)
    → check_timeout_value v m ≡ (if refused (some v) then err (value_error m) else ok tt)
unfolding check_timeout_value
check_timeout_value-refused (finite n) m = ground arith
check_timeout_value-refused nan m = refl
check_timeout_value-refused inf m = refl
check_timeout_value-refused neg_inf m = refl

check_optional-refused :
    (v : Option PyFloat) (m : String)
    → check_optional_timeout_value v m ≡ (if refused v then err (value_error m) else ok tt)
unfolding check_optional_timeout_value
check_optional-refused none m = refl
check_optional-refused (some v) m = check_timeout_value-refused v m

-- The constructor either returns the timeouts unchanged or raises a `ValueError`, whose message
-- names the first of run, terminate, output_drain and kill that is no finite number above zero.
pub execution_timeouts-outcome :
    (t : ExecutionTimeouts)
    → execution_timeouts t.run t.terminate t.output_drain t.kill ≡ outcome t (first_message t)
unfolding execution_timeouts
execution_timeouts-outcome t =
    simp (check_optional-refused, check_timeout_value-refused) (ground arith)

-- The time that the settings ask for after a kill.
abbrev pub requested : ExecutionTimeouts → PyFloat
requested t = get_or t.kill t.terminate

float_max_bounds :
    (v : PyFloat) (f : ℕ)
    → IsDuration v
    → let w = float_max v (finite (pos f)) in
      IsDuration w
      × (float_lt w (finite (pos f)) ≡ false)
      × (float_lt w v ≡ false)
      × ((w ≡ v) ⊎ (w ≡ finite (pos f)))
unfolding float_max
float_max_bounds (finite n) f h = ground arith
float_max_bounds nan f h = elim h [ ]
float_max_bounds inf f h = elim h [ ]
float_max_bounds neg_inf f h = elim h [ ]

kill_or_terminate-eq-requested :
    (t : ExecutionTimeouts) → AreDurations t → kill_or_terminate t.terminate t.kill ≡ requested t
unfolding kill_or_terminate
kill_or_terminate-eq-requested t d = by_kill t.kill d.kill
  where
    by_kill :
        (kill : Option PyFloat)
        → IsOptionalDuration kill
        → kill_or_terminate t.terminate kill ≡ get_or kill t.terminate
    by_kill none h = refl
    by_kill (some (finite n)) h = ground arith
    by_kill (some nan) h = refl
    by_kill (some inf) h = refl
    by_kill (some neg_inf) h = refl

IsDuration-requested : (t : ExecutionTimeouts) → AreDurations t → IsDuration (requested t)
IsDuration-requested t d = by_kill t.kill d.kill
  where
    by_kill :
        (kill : Option PyFloat) → IsOptionalDuration kill → IsDuration (get_or kill t.terminate)
    by_kill none h = d.terminate
    by_kill (some v) h = h

-- With accepted timeouts, the wait for a confirmed death is a finite number above zero; it is not
-- below four polling periods, nor below the kill timeout (the terminate timeout where that is
-- None), and it is one of these two.
pub effective_death_confirmation_timeout_bounds :
    (t : ExecutionTimeouts)
    → AreDurations t
    → let w = effective_death_confirmation_timeout t.terminate t.kill in
      IsDuration w
      × (float_lt w four_poll_periods ≡ false)
      × (float_lt w (requested t) ≡ false)
      × ((w ≡ requested t) ⊎ (w ≡ four_poll_periods))
unfolding effective_death_confirmation_timeout four_poll_periods
effective_death_confirmation_timeout_bounds t d =
    rw (kill_or_terminate-eq-requested t d)
      (float_max_bounds (requested t) _ (IsDuration-requested t d))
