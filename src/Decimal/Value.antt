-- ===== src/Decimal/Value.antt =====
-- The arithmetic of ledger/decimal.ts on the scaled BigInt that a decimal string stands for. The
-- other components compute with these numbers; Decimal/Ops relates them to the strings.
use novacex.Prelude.{Option, none, some, if◌then◌else◌}
use novacex.Prelude.Int.{ℤ, pos, ◌*ℤ◌, ◌/ℤ◌, leb_ℤ, eqb_ℤ}
use novacex.Decimal.{scale}

-- `decimalMultiply`: the product, cut towards zero to 18 places
unfoldable pub mul_dec : ℤ → ℤ → ℤ
unfolding ◌*ℤ◌ ◌/ℤ◌
mul_dec a b = a *ℤ b /ℤ pos scale

-- `decimalDivide` by a divisor that is not zero
unfoldable pub div_dec : ℤ → ℤ → ℤ
unfolding ◌*ℤ◌ ◌/ℤ◌
div_dec a b = a *ℤ pos scale /ℤ b

-- `decimalDivide`: a zero divisor throws
unfoldable pub div_dec? : ℤ → ℤ → Option ℤ
div_dec? a b = if eqb_ℤ b (pos 0) then none else some (div_dec a b)

-- `decimalCompare(a, b) < 0`, `<= 0`, `> 0`, `>= 0` are the tests of Prelude/Int.
-- `decimalMin`: the first on a tie
unfoldable pub min_dec : ℤ → ℤ → ℤ
min_dec a b = if leb_ℤ a b then a else b
