-- ===== src/Decimal/Tests.antt =====
-- Decimal strings at concrete values.
use novacex.Prelude.{◌⊎◌, ◌≡◌, refl, ◌↔◌, ◌≢◌, none, some, true, Option}
use novacex.Prelude.Int.{ℤ, pos, negsuc, neg, ◌+ℤ◌, ◌-ℤ◌, ◌<ℤ◌}
use novacex.Decimal.{Text, to_big_int, from_big_int, trim, is_space, is_decimal, scaled_magnitude}
use novacex.Decimal.RoundTrip.{to_big_int-from_big_int}
use novacex.Decimal.Ops.{
  codes, decimal_add, decimal_subtract, decimal_multiply, decimal_divide, decimal_min,
  validate_amount, count_decimal_places,
}
use novacex.Decimal.Laws.{IsProduct, IsQuotient, IsMinimum, Denotes, decimal_ops_exact}
use novacex.Decimal.Validate.{validate_amount_iff}

read : Text → Option ℤ
unfolding to_big_int trim is_space is_decimal scaled_magnitude neg
read = to_big_int

read_padded : read (codes " -1.5 ") ≡ some (negsuc 1499999999999999999)
unfolding read
read_padded = refl

-- Digits past the eighteenth are cut off.
read_long : read (codes "0.1234567890123456789") ≡ some (pos 123456789012345678)
unfolding read
read_long = refl

read_malformed :
    (read (codes "1.") ≡ none) × (read (codes ".5") ≡ none) × (read (codes "1e3") ≡ none)
unfolding read
read_malformed = (refl, refl, refl)

write_small : from_big_int (negsuc 4) ≡ codes "-0.000000000000000005"
unfolding from_big_int
write_small = refl

places : count_decimal_places (codes "12.340") ≡ 3
unfolding count_decimal_places is_space
places = refl

to_big_int-from_big_int_example : to_big_int (from_big_int (negsuc 4)) ≡ some (negsuc 4)
to_big_int-from_big_int_example = to_big_int-from_big_int (negsuc 4)

decimal_ops_exact_example :
    let a = codes "1.5" in
    let b = codes "-0.25" in
    let x = pos 1500000000000000000 in
    let y = negsuc 249999999999999999 in
    Denotes (decimal_add a b) (x +ℤ y)
    × Denotes (decimal_subtract a b) (x -ℤ y)
    × ((z : ℤ) × Denotes (decimal_multiply a b) z × IsProduct x y z)
    × ((z : ℤ) × Denotes (decimal_min a b) z × IsMinimum x y z)
    × (((y ≡ pos 0) × (decimal_divide a b ≡ none))
        ⊎ ((y ≢ pos 0) × ((z : ℤ) × Denotes (decimal_divide a b) z × IsQuotient x y z)))
unfolding read
decimal_ops_exact_example = decimal_ops_exact (codes "1.5") (codes "-0.25") _ _ refl refl

validate_amount_iff_example :
    (validate_amount (codes "-1") ≡ true)
    ↔ ((v : ℤ) × (to_big_int (codes "-1") ≡ some v) × (pos 0 <ℤ v))
validate_amount_iff_example = validate_amount_iff (codes "-1")
