-- ===== src/Decimal.antt =====
-- server/src/services/ledger/decimal.ts: decimal strings over BigInt fixed-point arithmetic.
-- A string is the list of its UTF-16 code units. A throw of InvalidAmountError is `none`.
pub mod Digits
pub mod RoundTrip
pub mod Value
pub mod Ops
pub mod Laws
pub mod Validate
mod Tests
use novacex.Prelude.{
  ℕ, zero, suc, ◌+◌, ◌-◌, ◌*◌, ◌/◌, ◌%◌, ◌^◌, Bool, true, false, not, ◌&&◌, ◌||◌, Option, none,
  some, List, [], ◌∷◌, ◌++◌, reverse, ltb, leb, ◌==◌, if◌then◌else◌, length, take, replicate,
}
use novacex.Prelude.Int.{ℤ, pos, negsuc, neg}

abbrev pub Text : Type 0
Text = List ℕ

abbrev pub precision : ℕ
precision = 18

abbrev pub scale : ℕ
scale = 10 ^ 18

-- What `String.prototype.trim` takes off.
unfoldable pub is_space : ℕ → Bool
is_space c =
    (leb 9 c && leb c 13)
    || c == 32
    || c == 160
    || c == 0x1680
    || (leb 0x2000 c && leb c 0x200a)
    || c == 0x2028
    || c == 0x2029
    || c == 0x202f
    || c == 0x205f
    || c == 0x3000
    || c == 0xfeff

pub trim_start : Text → Text
trim_start [] = []
trim_start (c ∷ s) = if is_space c then trim_start s else c ∷ s

unfoldable pub trim : Text → Text
unfolding trim_start
trim s = reverse (trim_start (reverse (trim_start s)))

abbrev pub is_digit : ℕ → Bool
is_digit c = leb b'0' c && leb c b'9'

-- `\d*$`
pub all_digits : Text → Bool
all_digits [] = true
all_digits (c ∷ s) = is_digit c && all_digits s

-- `\d+$`
pub some_digits : Text → Bool
unfolding all_digits
some_digits [] = false
some_digits (c ∷ s) = is_digit c && all_digits s

-- `\d*(\.\d+)?$`
pub match_rest : Text → Bool
unfolding some_digits
match_rest [] = true
match_rest (c ∷ s) = if c == b'.' then some_digits s else is_digit c && match_rest s

-- `\d+(\.\d+)?$`
pub match_unsigned : Text → Bool
unfolding match_rest
match_unsigned [] = false
match_unsigned (c ∷ s) = is_digit c && match_rest s

abbrev pub starts_with_minus : Text → Bool
starts_with_minus [] = false
starts_with_minus (c ∷ s) = c == b'-'

abbrev pub strip_minus : Text → Text
strip_minus [] = []
strip_minus (c ∷ s) = if c == b'-' then s else c ∷ s

-- `/^-?\d+(\.\d+)?$/.test(s)`
unfoldable pub is_decimal : Text → Bool
unfolding match_unsigned
is_decimal s = match_unsigned (strip_minus s)

-- `s.split('.')`: the part before the first dot, and the parts after it
pub split_dot : Text → Text × List Text
split_dot [] = ([], [])
split_dot (c ∷ s) =
    let (part, rest) = split_dot s in if c == b'.' then ([], part ∷ rest) else (c ∷ part, rest)

-- `BigInt(s)` for a string of digits; `BigInt('')` is 0n
unfoldable pub read_digits : ℕ → Text → ℕ
read_digits acc [] = acc
read_digits acc (c ∷ s) = read_digits (acc * 10 + (c - b'0')) s

-- `parts[1] || ''`
abbrev pub head_or_empty : List Text → Text
head_or_empty [] = []
head_or_empty (s ∷ _) = s

-- `parts[0] || '0'`
abbrev pub or_zero : Text → Text
or_zero [] = b'0' ∷ []
or_zero (c ∷ s) = c ∷ s

pub pad_end : ℕ → Text → Text
pad_end n s = s ++ replicate (n - length s) b'0'

pub pad_start : ℕ → Text → Text
pad_start n s = replicate (n - length s) b'0' ++ s

-- `toBigInt` once the sign is off
unfoldable pub scaled_magnitude : Text → ℕ
unfolding split_dot read_digits pad_end
scaled_magnitude s =
    let (int_part, rest) = split_dot s in
    read_digits 0 (or_zero int_part) * scale
    + read_digits 0 (take precision (pad_end precision (head_or_empty rest)))

unfoldable pub to_big_int : Text → Option ℤ
to_big_int value =
    let trimmed = trim value in
    if not (is_decimal trimmed)
    then none
    else some (
        if starts_with_minus trimmed
        then neg (pos (scaled_magnitude (strip_minus trimmed)))
        else pos (scaled_magnitude trimmed))

-- `n.toString()`, the number's last digit put behind the others; `fuel` is at least `n`
pub print_fuel : ℕ → ℕ → Text
print_fuel zero n = (b'0' + n) ∷ []
print_fuel (suc fuel) n =
    let more = print_fuel fuel (n / 10) ++ (b'0' + n % 10) ∷ [] in
    if ltb n 10 then (b'0' + n) ∷ [] else more

pub print_ℕ : ℕ → Text
unfolding print_fuel
print_ℕ n = print_fuel n n

pub print_magnitude : ℕ → Text
unfolding print_ℕ pad_start
print_magnitude n = print_ℕ (n / scale) ++ b'.' ∷ pad_start precision (print_ℕ (n % scale))

unfoldable pub from_big_int : ℤ → Text
unfolding print_magnitude
from_big_int (pos n) = print_magnitude n
from_big_int (negsuc n) = b'-' ∷ print_magnitude (suc n)
