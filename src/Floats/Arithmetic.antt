-- ===== src/Floats/Arithmetic.antt =====
-- The float arithmetic of src/flnr/mu.py: an int as a float, the difference of two floats, and the
-- text of a float with a fixed number of decimals. A rounded double has 53 significant bits, ties go
-- to the even neighbour; a negative zero is not told from zero.
mod Tests
use flnr.Base.{
  ℕ, zero, suc, ◌+◌, ◌-◌, ◌*◌, ◌/◌, ◌%◌, ◌^◌, Bool, true, false, ◌==◌, ltb, leb, List, [], ◌∷◌,
  ◌++◌, if◌then◌else◌, length,
}
use flnr.Base.Int.{ℤ, pos, negsuc}
use flnr.Base.Text.{Text, codes}
use flnr.Base.Decimal.{show_ℕ}
use flnr.Floats.{PyFloat, nan, inf, neg_inf, finite}

-- The number of binary digits, where they are at most as many as the fuel.
bit_length : ℕ → ℕ → ℕ
bit_length zero n = 0
bit_length (suc fuel) n = let rest = bit_length fuel (n / 2) in if n == 0 then 0 else suc rest

-- `n / d`, rounded to the nearest, ties to even
pub round_half_even : ℕ → ℕ → ℕ
round_half_even n d =
    let q = n / d in
    let r = n % d in if ltb (2 * r) d then q else if ltb d (2 * r) then suc q else q + q % 2

-- The nearest double to a magnitude in units of 2^-1074; 2200 bits hold the sums of two doubles.
nearest : ℕ → ℕ
unfolding bit_length round_half_even
nearest n = let ulp = 2 ^ (bit_length 2200 n - 53) in round_half_even n ulp * ulp

abbrev overflow : ℕ
overflow = 2 ^ 2098

positive : ℕ → PyFloat
unfolding nearest
positive n = let m = nearest n in if leb overflow m then inf else finite (pos m)

negative : ℕ → PyFloat
unfolding nearest
negative n =
    let m = nearest n in
    if leb overflow m then neg_inf else if m == 0 then finite (pos 0) else finite (negsuc (m - 1))

-- `a - b` of two magnitudes
apart : ℕ → ℕ → PyFloat
unfolding positive negative
apart a b = if leb b a then positive (a - b) else negative (b - a)

subtract_finite : ℤ → ℤ → PyFloat
unfolding apart positive negative
subtract_finite (pos a) (pos b) = apart a b
subtract_finite (negsuc a) (negsuc b) = apart (suc b) (suc a)
subtract_finite (pos a) (negsuc b) = positive (a + suc b)
subtract_finite (negsuc a) (pos b) = negative (suc a + b)

-- `a - b`
unfoldable pub subtract : PyFloat → PyFloat → PyFloat
unfolding subtract_finite
subtract nan b = nan
subtract inf inf = nan
subtract inf nan = nan
subtract inf neg_inf = inf
subtract inf (finite b) = inf
subtract neg_inf neg_inf = nan
subtract neg_inf nan = nan
subtract neg_inf inf = neg_inf
subtract neg_inf (finite b) = neg_inf
subtract (finite a) nan = nan
subtract (finite a) inf = neg_inf
subtract (finite a) neg_inf = inf
subtract (finite a) (finite b) = subtract_finite a b

-- The least magnitude of an int that has no float: what rounds to 2^1024.
abbrev pub int_overflow : ℕ
int_overflow = 2 ^ 1024 - 2 ^ 970

-- `float(n)` below that
unfoldable pub to_float : ℤ → PyFloat
unfolding positive negative
to_float (pos n) = positive (n * 2 ^ 1074)
to_float (negsuc n) = negative (suc n * 2 ^ 1074)

zeros : ℕ → Text
zeros zero = []
zeros (suc n) = 48 ∷ zeros n

-- A magnitude with `p` decimals.
fixed : ℕ → ℕ → Text
unfolding round_half_even zeros show_ℕ
fixed p n =
    let scaled = round_half_even (n * 10 ^ p) (2 ^ 1074) in
    let decimals = show_ℕ (scaled % 10 ^ p) in
    if p == 0
    then show_ℕ scaled
    else show_ℕ (scaled / 10 ^ p) ++ (codes "." ++ (zeros (p - length decimals) ++ decimals))

-- `f"{value:.{p}f}"`
unfoldable pub show_fixed : ℕ → PyFloat → Text
unfolding fixed
show_fixed p nan = codes "nan"
show_fixed p inf = codes "inf"
show_fixed p neg_inf = codes "-inf"
show_fixed p (finite (pos n)) = fixed p n
show_fixed p (finite (negsuc n)) = 45 ∷ fixed p (suc n)
