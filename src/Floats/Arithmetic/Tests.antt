-- ===== src/Floats/Arithmetic/Tests.antt =====
-- Runs of the float arithmetic of src/flnr/mu.py.
use flnr.Base.{◌≡◌, refl, ◌*◌, ◌^◌}
use flnr.Base.Int.{pos, negsuc}
use flnr.Base.Text.{codes}
use flnr.Base.Decimal.{show_ℕ}
use flnr.Floats.{inf, finite}
use flnr.Floats.Arithmetic.{
  bit_length, round_half_even, nearest, positive, negative, apart, subtract_finite, subtract,
  to_float, zeros, fixed, show_fixed, int_overflow,
}

-- 2.5 - 0.125 is 2.375, and ties go to the even neighbour.
halves :
    show_fixed 2 (subtract (finite (pos (5 * 2 ^ 1073))) (finite (pos (2 ^ 1071)))) ≡ codes "2.38"
unfolding show_fixed fixed zeros subtract subtract_finite apart positive negative nearest bit_length
    round_half_even show_ℕ
halves = refl

tenth : show_fixed 9 (finite (pos (7205759403792794 * 2 ^ 1018))) ≡ codes "0.100000000"
unfolding show_fixed fixed zeros round_half_even show_ℕ
tenth = refl

largest : to_float (pos int_overflow) ≡ inf
unfolding to_float positive nearest bit_length round_half_even
largest = refl

-- 1 - 1e16 is not exact.
rounded :
    subtract (finite (pos (2 ^ 1074))) (finite (pos (10000000000000001 * 2 ^ 1074)))
    ≡ to_float (negsuc 9999999999999999)
unfolding to_float subtract subtract_finite apart positive negative nearest bit_length
    round_half_even
rounded = refl
