-- ===== src/Base/Decimal.antt =====
-- Integers in decimal, as Python prints them.
use flnr.Base.Tests.{ltb, if◌then◌else◌}
use flnr.Base.Int.{ℤ, pos, negsuc}
use flnr.Base.Text.{Text}
use Prim.Native.Nat.{ℕ, zero, suc, ◌+◌, ◌/◌, ◌%◌}
use mathlib.Core.List.{[], ◌∷◌}

-- The digits of `n` in front of a text; a number has at most as many digits as its value and one.
decimal_onto : ℕ → ℕ → Text → Text
decimal_onto zero n text = text
decimal_onto (suc fuel) n text =
    let digits = (48 + n % 10) ∷ text in
    let rest = decimal_onto fuel (n / 10) digits in if ltb n 10 then digits else rest

unfoldable pub show_ℕ : ℕ → Text
unfolding decimal_onto
show_ℕ n = decimal_onto (suc n) n []

unfoldable pub show_ℤ : ℤ → Text
unfolding show_ℕ
show_ℤ (pos n) = show_ℕ n
show_ℤ (negsuc n) = 45 ∷ show_ℕ (suc n)
