-- ===== src/Floats.antt =====
-- Python's floats, as far as the timeouts use them: comparison and finiteness. A finite double is a
-- whole multiple of 2^-1074, so `finite n` with n in that unit is exact. `math.isfinite`, `<=`, `>`,
-- `max` and the truth of a float are those of IEEE 754 and of Python; none of them rounds.
pub mod Arithmetic
use flnr.Base.{◌*◌, ◌^◌, Bool, true, false, if◌then◌else◌}
use flnr.Base.Int.{ℤ, pos, leb_ℤ, ltb_ℤ, nonzero}

pub data PyFloat : Type 0 where
  nan inf neg_inf : PyFloat
  finite : ℤ → PyFloat

unfoldable pub is_finite : PyFloat → Bool
is_finite (finite n) = true
is_finite nan = false
is_finite inf = false
is_finite neg_inf = false

-- `value <= 0`
unfoldable pub le_zero : PyFloat → Bool
le_zero (finite n) = leb_ℤ n (pos 0)
le_zero neg_inf = true
le_zero inf = false
le_zero nan = false

-- `a < b`; no comparison with nan holds
unfoldable pub float_lt : PyFloat → PyFloat → Bool
float_lt (finite a) (finite b) = ltb_ℤ a b
float_lt (finite a) inf = true
float_lt (finite a) neg_inf = false
float_lt (finite a) nan = false
float_lt neg_inf (finite b) = true
float_lt neg_inf inf = true
float_lt neg_inf neg_inf = false
float_lt neg_inf nan = false
float_lt inf b = false
float_lt nan b = false

-- `bool(value)`
unfoldable pub truthy : PyFloat → Bool
truthy (finite n) = nonzero n
truthy nan = true
truthy inf = true
truthy neg_inf = true

-- `max(a, b)`, which keeps its first argument unless the second is greater
unfoldable pub float_max : PyFloat → PyFloat → PyFloat
unfolding float_lt
float_max a b = if float_lt a b then b else a

-- 0.05 and 0.2 as doubles share the significand 7205759403792794; the units are those of `finite`.
unfoldable pub poll_period : PyFloat
poll_period = finite (pos (7205759403792794 * 2 ^ 1017))

-- `0.05 * 4`: a product by a power of two is exact
unfoldable pub four_poll_periods : PyFloat
four_poll_periods = finite (pos (7205759403792794 * 2 ^ 1019))
