-- ===== src/Decimal/Ops.antt =====
-- The exported functions of ledger/decimal.ts on decimal strings; a throw is `none`.
use Prim.Native.Char.{code}
use Prim.Native.String.{String}
use novacex.Prelude.{
  ℕ, Bool, true, false, not, ◌&&◌, ◌||◌, Option, none, some, List, [], ◌∷◌, ltb, ◌==◌,
  if◌then◌else◌, length,
}
use novacex.Prelude.Int.{ℤ, pos, ◌+ℤ◌, ◌-ℤ◌, ltb_ℤ, leb_ℤ, eqb_ℤ}
use novacex.Decimal.{Text, trim, is_decimal, split_dot, to_big_int, from_big_int}
use novacex.Decimal.Value.{mul_dec, div_dec}

infixl 5 ◌>>=◌
abbrev pub ◌>>=◌ {ℓ κ} : {A : Type ℓ} {B : Type κ} → Option A → (A → Option B) → Option B
none >>= f = none
some a >>= f = f a

-- The code units of an ASCII literal.
abbrev pub codes : String → Text
codes String.[] = []
codes (String.◌∷◌ c s) = code c ∷ codes s

abbrev pub text_eq : Text → Text → Bool
text_eq [] [] = true
text_eq (c ∷ s) (d ∷ t) = c == d && text_eq s t
text_eq _ _ = false

unfoldable pub decimal_add : Text → Text → Option Text
decimal_add a b = do x ← to_big_int a; y ← to_big_int b; some (from_big_int (x +ℤ y))

unfoldable pub decimal_subtract : Text → Text → Option Text
decimal_subtract a b = do x ← to_big_int a; y ← to_big_int b; some (from_big_int (x -ℤ y))

unfoldable pub decimal_multiply : Text → Text → Option Text
decimal_multiply a b = do x ← to_big_int a; y ← to_big_int b; some (from_big_int (mul_dec x y))

-- The divisor is read, and tested, before the dividend.
unfoldable pub decimal_divide : Text → Text → Option Text
decimal_divide a b = do
  y ← to_big_int b
  divisor ← (if eqb_ℤ y (pos 0) then none else some y)
  x ← to_big_int a
  some (from_big_int (div_dec x divisor))

pub data Sign : Type 0 where
  minus_one zero_sign one : Sign

-- The sign of the difference, as -1, 0 or 1.
unfoldable pub sign_of : ℤ → Sign
sign_of d = if ltb_ℤ d (pos 0) then minus_one else if ltb_ℤ (pos 0) d then one else zero_sign

unfoldable pub decimal_compare : Text → Text → Option Sign
unfolding sign_of
decimal_compare a b = do x ← to_big_int a; y ← to_big_int b; some (sign_of (x -ℤ y))

abbrev pub at_most_zero : Sign → Bool
at_most_zero one = false
at_most_zero _ = true

unfoldable pub decimal_min : Text → Text → Option Text
unfolding decimal_compare
decimal_min a b = do c ← decimal_compare a b; some (if at_most_zero c then a else b)

unfoldable pub decimal_is_zero : Text → Option Bool
decimal_is_zero a = do x ← to_big_int a; some (eqb_ℤ x (pos 0))

unfoldable pub decimal_is_positive : Text → Option Bool
decimal_is_positive a = do x ← to_big_int a; some (ltb_ℤ (pos 0) x)

unfoldable pub decimal_is_non_negative : Text → Option Bool
decimal_is_non_negative a = do x ← to_big_int a; some (leb_ℤ (pos 0) x)

unfoldable pub decimal_zero : Text
unfolding from_big_int
decimal_zero = from_big_int (pos 0)

unfoldable pub decimal_normalize : Text → Option Text
decimal_normalize a = do x ← to_big_int a; some (from_big_int x)

abbrev pub is_not_finite : Text → Bool
is_not_finite s =
    text_eq s []
    || text_eq s (codes "NaN")
    || text_eq s (codes "Infinity")
    || text_eq s (codes "-Infinity")

-- `validateAmount`: true where it returns, false where it throws.
unfoldable pub validate_amount : Text → Bool
validate_amount amount =
    let str = trim amount in
    if is_not_finite str
    then false
    else if not (is_decimal str)
    then false
    else elim (to_big_int str) [ none ↦ false | some parsed ↦ not (leb_ℤ parsed (pos 0)) ]

unfoldable pub validate_non_negative : Text → Bool
validate_non_negative value = elim (to_big_int value) [
  | none ↦ false
  | some parsed ↦ not (ltb_ℤ parsed (pos 0))
]

abbrev pub second_part : Text × List Text → ℕ
second_part (_, []) = 0
second_part (_, p ∷ _) = length p

unfoldable pub count_decimal_places : Text → ℕ
unfolding trim split_dot
count_decimal_places amount = second_part (split_dot (trim amount))

-- `validateDecimalPrecision`: true where it returns, false where it throws.
unfoldable pub validate_decimal_precision : Text → ℕ → Bool
unfolding count_decimal_places
validate_decimal_precision amount max_decimals =
    not (ltb max_decimals (count_decimal_places amount))
