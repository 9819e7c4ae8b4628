-- ===== src/TextOutput/Validity.antt =====
-- Which timestamp options `TextOutputMonitor` of src/flnr/mu.py takes.
use flnr.Base.{
  ℕ, ◌≡◌, ◌≢◌, ◌↔◌, ◌⊎◌, ◌≤◌, ◌<◌, refl, Bool, true, false, not, ◌&&◌, arith, sym, ◌∙◌, is_some,
  leb, inl, inr,
}
use flnr.Base.Int.{pos, negsuc, ltb_ℤ}
use flnr.Outcome.{Result, ok, err, PyError, value_error, raise_if, ◌>>=◌, ◌>>◌}
use flnr.Floats.{PyFloat, nan, inf, neg_inf, finite, is_finite, float_lt}
use flnr.Floats.Arithmetic.{int_overflow}
use flnr.LineSplitter.{IncrementalLineSplitter, init}
use flnr.TextOutput.{
  Precision, no_precision, index, no_index, Base, no_base, an_int, a_float, no_number,
  TextOutputMonitor, has_float, accepted_precision, is_given, validate_timestamp_precision,
  validate_timestamp_base, text_output_monitor,
}

abbrev pub IsPrecision : Precision → Type 0
IsPrecision no_precision = Unit
IsPrecision (Precision.a_bool b) = ⊥
IsPrecision (index (pos n)) = n ≤ 9
IsPrecision (index (negsuc n)) = ⊥
IsPrecision no_index = ⊥

-- A base that is not negative and finite, or that has a float if it is an int.
abbrev pub IsBase : Base → Type 0
IsBase no_base = Unit
IsBase (Base.a_bool b) = ⊥
IsBase (an_int (pos n)) = n < int_overflow
IsBase (an_int (negsuc n)) = ⊥
IsBase (a_float (finite (pos n))) = Unit
IsBase (a_float _) = ⊥
IsBase no_number = ⊥

true_ne_false : true ≢ false
true_ne_false e = cc

refused : (n : ℕ) → validate_timestamp_precision (index (negsuc n)) ≢ ok tt
unfolding validate_timestamp_precision
refused n e = ground arith

precision-IsPrecision : (p : Precision) → (validate_timestamp_precision p ≡ ok tt) ↔ IsPrecision p
unfolding validate_timestamp_precision
precision-IsPrecision no_precision = (λ e. tt, λ h. refl)
precision-IsPrecision (Precision.a_bool b) = (λ e. cc, λ h. absurd h)
precision-IsPrecision (index (pos n)) = ground arith
precision-IsPrecision (index (negsuc n)) = (λ e. absurd (refused n e), λ h. absurd h)
precision-IsPrecision no_index = (λ e. cc, λ h. absurd h)

passed_tests :
    (small below : Bool) (e e' : PyError)
    → ((raise_if (not small) e >> raise_if below e') ≡ ok tt) ↔ ((small ≡ true) × (below ≡ false))
passed_tests false below e e' = (λ h. cc, λ (a, b). cc)
passed_tests true false e e' = (λ h. (refl, refl), λ h. refl)
passed_tests true true e e' = (λ h. cc, λ (a, b). cc)

small_iff : (bound n : ℕ) → (not (leb bound n) ≡ true) ↔ (n < bound)
small_iff bound n = ground arith

not_below : (n : ℕ) → ltb_ℤ (pos n) (pos 0) ≡ false
not_below n = ground arith

below : (n : ℕ) → ltb_ℤ (negsuc n) (pos 0) ≡ true
below n = ground arith

base-IsBase : (b : Base) → (validate_timestamp_base b ≡ ok tt) ↔ IsBase b
unfolding validate_timestamp_base float_lt is_finite
base-IsBase no_base = (λ e. tt, λ h. refl)
base-IsBase (Base.a_bool b) = (λ e. cc, λ h. absurd h)
base-IsBase (an_int (pos n)) =
    let (there, back) = passed_tests (has_float (pos n)) (ltb_ℤ (pos n) (pos 0)) _ _ in
    let (small, big) = small_iff int_overflow n in
    (λ e. small (there e).0, λ h. back (big h, not_below n))
base-IsBase (an_int (negsuc n)) =
    let (there, back) = passed_tests (has_float (negsuc n)) (ltb_ℤ (negsuc n) (pos 0)) _ _ in
    (λ e. absurd (true_ne_false (sym (below n) ∙ (there e).1)), λ h. absurd h)
base-IsBase (a_float (finite (pos n))) =
    let (there, back) = passed_tests true (ltb_ℤ (pos n) (pos 0)) (value_error "") _ in
    (λ e. tt, λ h. back (refl, not_below n))
base-IsBase (a_float (finite (negsuc n))) =
    let (there, back) = passed_tests true (ltb_ℤ (negsuc n) (pos 0)) (value_error "") _ in
    (λ e. absurd (true_ne_false (sym (below n) ∙ (there e).1)), λ h. absurd h)
base-IsBase (a_float nan) = (λ e. cc, λ h. absurd h)
base-IsBase (a_float inf) = (λ e. cc, λ h. absurd h)
base-IsBase (a_float neg_inf) = (λ e. cc, λ h. absurd h)
base-IsBase no_number = (λ e. cc, λ h. absurd h)

abbrev pub is_created : Result TextOutputMonitor → Bool
is_created (ok m) = true
is_created (err e) = false

given :
    (b : Base)
    → b ≢ no_base
    → (true ≡ false) ↔ ((b ≡ no_base) ⊎ (◌≢◌ {A = Precision} no_precision no_precision))
given b ne =
    (λ e. absurd (true_ne_false e), λ c. elim c [ inl e ↦ absurd (ne e) | inr n ↦ absurd (n refl) ])

and_false : (b : Bool) → (b && false) ≡ false
and_false true = refl
and_false false = refl

-- What the third check wants, once the options are of the right kinds.
given_without_precision :
    (p : Precision) (b : Base)
    → IsPrecision p
    → IsBase b
    → ((is_given b && not (is_some (accepted_precision p))) ≡ false)
      ↔ ((b ≡ no_base) ⊎ (p ≢ no_precision))
given_without_precision no_precision no_base h k = (λ e. inl refl, λ e. refl)
given_without_precision no_precision (Base.a_bool b) h k = absurd k
given_without_precision no_precision (an_int n) h k = given (an_int n) (λ e. cc)
given_without_precision no_precision (a_float x) h k = given (a_float x) (λ e. cc)
given_without_precision no_precision no_number h k = absurd k
given_without_precision (Precision.a_bool c) b h k = absurd h
given_without_precision (index (pos n)) b h k = (λ e. inr (λ e'. cc), λ e. and_false (is_given b))
given_without_precision (index (negsuc n)) b h k = absurd h
given_without_precision no_index b h k = absurd h

created_check :
    {P : Type 0} (check : Result (Unit {0})) (rest : Result TextOutputMonitor)
    → (is_created rest ≡ true) ↔ P
    → (is_created (check >> rest) ≡ true) ↔ ((check ≡ ok tt) × P)
created_check (err raised) rest h = (λ e. cc, λ (a, b). cc)
created_check (ok tt) rest h = (λ e. (refl, h.0 e), λ (a, b). h.1 b)

created_test :
    {P : Type 0} (test : Bool) (e : PyError) (rest : Result TextOutputMonitor)
    → (is_created rest ≡ true) ↔ P
    → (is_created (raise_if test e >> rest) ≡ true) ↔ ((test ≡ false) × P)
created_test true e rest h = (λ e. cc, λ (a, b). cc)
created_test false e rest h = (λ e. (refl, h.0 e), λ (a, b). h.1 b)

created_last :
    (limit : ℕ) (rest : IncrementalLineSplitter → TextOutputMonitor)
    → (is_created (init limit >>= λ ils. ok (rest ils)) ≡ true) ↔ (0 < limit)
unfolding init
created_last limit rest = ground arith

-- A text monitor is created exactly when the precision is absent or from 0 to 9, the base is absent
-- or a finite number that is not negative and has a float, the base comes with a precision, and
-- the buffer limit is positive.
pub text_output_monitor_iff :
    (limit : ℕ) (auto_flush : Bool) (p : Precision) (b : Base) (mark : Bool) (now : PyFloat)
    → (is_created (text_output_monitor limit auto_flush p b mark now) ≡ true)
      ↔ (IsPrecision p × IsBase b × ((b ≡ no_base) ⊎ (p ≢ no_precision)) × (0 < limit))
unfolding text_output_monitor
text_output_monitor_iff limit auto_flush p b mark now =
    let agree = is_given b && not (is_some (accepted_precision p)) in
    let (there, back) = created_check (validate_timestamp_precision p) _ (
      created_check (validate_timestamp_base b) _
        (created_test agree _ _ (created_last limit _))) in
    let (precision, precision') = precision-IsPrecision p in
    let (base, base') = base-IsBase b in
    (
      λ e.
          let (h, (k, (a, l))) = there e in
          (precision h, base k, (given_without_precision p b (precision h) (base k)).0 a, l),
      λ (h, k, a, l). back (precision' h, (base' k, ((given_without_precision p b h k).1 a, l))),
    )
