-- ===== src/Decimal/Laws.antt =====
-- The functions of ledger/decimal.ts and the numbers that their arguments stand for.
use mathlib.Core.Path.{subst}
use native.Mathlib.Nat.{div-mul-le_self, lt-div-mul-add, zero-div}
use novacex.Prelude.{
  sym, ℕ, zero, suc, ◌*◌, ◌/◌, ◌≤◌, ◌<◌, refl, ◌⊎◌, ◌≡◌, ◌≢◌, ◌↔◌, inl, inr, Option, none, some,
  arith, Bool-cases,
}
use novacex.Prelude.Int.{
  neg_ℕ, negsuc, ◌*ℤ◌, ◌/ℤ◌, ◌≤ℤ◌, ℤ, pos, ◌+ℤ◌, ◌-ℤ◌, ◌<ℤ◌, leb_ℤ, eqb_ℤ, -ℤ_parts, eq_of_parts,
  eqb_ℤ→eq,
}
use novacex.Decimal.{scale, Text, to_big_int}
use novacex.Decimal.RoundTrip.{to_big_int-from_big_int}
use novacex.Decimal.Value.{mul_dec, div_dec}
use novacex.Decimal.Ops.{
  decimal_add, decimal_subtract, decimal_multiply, decimal_divide, decimal_compare, decimal_min,
  Sign, minus_one, zero_sign, one, sign_of, at_most_zero,
}

-- The text stands for the number.
abbrev pub Denotes : Option Text → ℤ → Type 0
Denotes none v = ⊥
Denotes (some s) v = to_big_int s ≡ some v

at_most_zero-sign_of : (x y : ℤ) → at_most_zero (sign_of (x -ℤ y)) ≡ leb_ℤ x y
unfolding sign_of
at_most_zero-sign_of x y = ground (arith, -ℤ_parts x y)

-- `decimalCompare` is -1, 0 or 1 as the number of the first is below, at or above the second's.
pub decimal_compare_exact :
    (a b : Text) (x y : ℤ)
    → to_big_int a ≡ some x
    → to_big_int b ≡ some y
    → (s : Sign) × (decimal_compare a b ≡ some s)
      × ((s ≡ minus_one) ↔ (x <ℤ y))
      × ((s ≡ zero_sign) ↔ (x ≡ y))
      × ((s ≡ one) ↔ (y <ℤ x))
unfolding decimal_compare sign_of
decimal_compare_exact a b x y ha hb = (
  sign_of (x -ℤ y),
  rw (ha, hb),
  ground (arith, -ℤ_parts x y),
  ground (arith, -ℤ_parts x y, eq_of_parts x y),
  ground (arith, -ℤ_parts x y),
)

abbrev pub magnitude : ℤ → ℕ
magnitude (pos n) = n
magnitude (negsuc n) = suc n

-- The sign of a quotient or product of x and y: not below zero unless just one of them is, and not
-- above zero unless both are below zero or neither is.
abbrev pub IsSigned : ℤ → ℤ → ℤ → Type 0
IsSigned x y z =
    ((pos 0 ≤ℤ z) ⊎ ((x <ℤ pos 0) × (pos 0 ≤ℤ y)) ⊎ ((pos 0 ≤ℤ x) × (y <ℤ pos 0)))
    × ((z ≤ℤ pos 0) ⊎ ((x <ℤ pos 0) × (y <ℤ pos 0)) ⊎ ((pos 0 ≤ℤ x) × (pos 0 ≤ℤ y)))

-- x * y / 10^18, cut towards zero.
abbrev pub IsProduct : ℤ → ℤ → ℤ → Type 0
IsProduct x y z =
    (magnitude z * 1000000000000000000 ≤ magnitude x * magnitude y)
    × (magnitude x * magnitude y < suc (magnitude z) * 1000000000000000000)
    × IsSigned x y z

-- x * 10^18 / y, cut towards zero.
abbrev pub IsQuotient : ℤ → ℤ → ℤ → Type 0
IsQuotient x y z =
    (magnitude z * magnitude y ≤ magnitude x * 1000000000000000000)
    × (magnitude x * 1000000000000000000 < suc (magnitude z) * magnitude y)
    × IsSigned x y z

magnitude-neg_ℕ : (n : ℕ) → magnitude (neg_ℕ n) ≡ n
magnitude-neg_ℕ zero = refl
magnitude-neg_ℕ (suc n) = refl

-- n / d, of either sign.
IsCut : ℕ → ℕ → ℤ → Type 0
IsCut n d z = (magnitude z * d ≤ n) × (n < suc (magnitude z) * d)

pos-IsCut : (n d : ℕ) → 0 < d → IsCut n d (pos (n / d))
unfolding IsCut
pos-IsCut n d h = (div-mul-le_self n d, omega (arith, lt-div-mul-add {a = n} {b = d} h))

neg-IsCut : (n d : ℕ) → 0 < d → IsCut n d (neg_ℕ (n / d))
unfolding IsCut
neg-IsCut n d h =
    subst (λ m. (m * d ≤ n) × (n < suc m * d)) (sym (magnitude-neg_ℕ (n / d)))
      ((pos-IsCut n d h).0, (pos-IsCut n d h).1)

neg_ℕ-/ℤ-pos : (n d : ℕ) → neg_ℕ n /ℤ pos d ≡ neg_ℕ (n / d)
unfolding ◌/ℤ◌
neg_ℕ-/ℤ-pos zero d = rw (zero-div d) refl
neg_ℕ-/ℤ-pos (suc n) d = refl

neg_ℕ-/ℤ-negsuc : (n d : ℕ) → neg_ℕ n /ℤ negsuc d ≡ pos (n / suc d)
unfolding ◌/ℤ◌
neg_ℕ-/ℤ-negsuc zero d = rw (zero-div (suc d)) refl
neg_ℕ-/ℤ-negsuc (suc n) d = refl

negative-IsCut : (n d : ℕ) → 0 < d → IsCut n d (neg_ℕ n /ℤ pos d)
negative-IsCut n d h = subst (IsCut n d) (sym (neg_ℕ-/ℤ-pos n d)) (neg-IsCut n d h)

neg_ℕ_below : (n : ℕ) → neg_ℕ n ≤ℤ pos 0
neg_ℕ_below n = ground arith

negative_below : (n d : ℕ) → neg_ℕ n /ℤ pos d ≤ℤ pos 0
negative_below n d = subst (λ z. z ≤ℤ pos 0) (sym (neg_ℕ-/ℤ-pos n d)) (neg_ℕ_below (n / d))

mul_dec-IsProduct : (x y : ℤ) → IsProduct x y (mul_dec x y)
unfolding mul_dec ◌*ℤ◌ ◌/ℤ◌ IsCut
mul_dec-IsProduct (pos a) (pos b) =
    let (low, high) = pos-IsCut (a * b) scale (omega arith) in (low, high, ground arith)
mul_dec-IsProduct (pos a) (negsuc b) =
    let (low, high) = negative-IsCut (a * suc b) scale (omega arith) in
    (low, high, (inr (inr (ground arith, ground arith)), inl (negative_below (a * suc b) scale)))
mul_dec-IsProduct (negsuc a) (pos b) =
    let (low, high) = negative-IsCut (suc a * b) scale (omega arith) in
    (low, high, (inr (inl (ground arith, ground arith)), inl (negative_below (suc a * b) scale)))
mul_dec-IsProduct (negsuc a) (negsuc b) =
    let (low, high) = pos-IsCut (suc a * suc b) scale (omega arith) in (low, high, ground arith)

div_dec-IsQuotient : (x y : ℤ) → y ≢ pos 0 → IsQuotient x y (div_dec x y)
unfolding div_dec ◌*ℤ◌ ◌/ℤ◌ IsCut
div_dec-IsQuotient x (pos zero) h = absurd (h refl)
div_dec-IsQuotient (pos a) (pos (suc b)) h =
    let (low, high) = pos-IsCut (a * scale) (suc b) (omega arith) in (low, high, ground arith)
div_dec-IsQuotient (pos a) (negsuc b) h =
    let (low, high) = neg-IsCut (a * scale) (suc b) (omega arith) in
    (low, high, (inr (inr (ground arith, ground arith)), inl (neg_ℕ_below (a * scale / suc b))))
div_dec-IsQuotient (negsuc a) (pos (suc b)) h =
    let (low, high) = negative-IsCut (suc a * scale) (suc b) (omega arith) in
    (
      low,
      high,
      (inr (inl (ground arith, ground arith)), inl (negative_below (suc a * scale) (suc b))),
    )
div_dec-IsQuotient (negsuc a) (negsuc b) h =
    subst (IsQuotient (negsuc a) (negsuc b)) (sym (neg_ℕ-/ℤ-negsuc (suc a * scale) b)) (
      let (low, high) = pos-IsCut (suc a * scale) (suc b) (omega arith) in
      (low, high, ground arith))

-- The smaller of x and y.
abbrev pub IsMinimum : ℤ → ℤ → ℤ → Type 0
IsMinimum x y z = ((x ≤ℤ y) × (z ≡ x)) ⊎ ((y ≤ℤ x) × (z ≡ y))

decimal_min_lem :
    (a b : Text) (x y : ℤ)
    → to_big_int a ≡ some x
    → to_big_int b ≡ some y
    → (z : ℤ) × Denotes (decimal_min a b) z × IsMinimum x y z
unfolding decimal_min decimal_compare
decimal_min_lem a b x y ha hb =
    rw (ha, hb, at_most_zero-sign_of x y)
      (elim (Bool-cases (leb_ℤ x y)) [
        | inl e ↦ rw e (x, ha, inl (ground arith, refl))
        | inr e ↦ rw e (y, hb, inr (ground arith, refl))
      ])

decimal_divide_lem :
    (a b : Text) (x y : ℤ)
    → to_big_int a ≡ some x
    → to_big_int b ≡ some y
    → ((y ≡ pos 0) × (decimal_divide a b ≡ none))
      ⊎ ((y ≢ pos 0) × ((z : ℤ) × Denotes (decimal_divide a b) z × IsQuotient x y z))
unfolding decimal_divide
decimal_divide_lem a b x y ha hb = elim (Bool-cases (eqb_ℤ y (pos 0))) [
  | inl e ↦ inl (eqb_ℤ→eq y (pos 0) e, rw (hb, e) refl)
  | inr e ↦
      let ne : y ≢ pos 0 = λ h. ground arith in
      inr (
        ne,
        (
          div_dec x y,
          rw (hb, e, ha) (to_big_int-from_big_int (div_dec x y)),
          div_dec-IsQuotient x y ne,
        ),
      )
]

-- On strings that stand for x and y, in units of 10^-18, the results are strings too: the sum stands
-- for x + y, the difference for x - y, the product for x * y / 10^18 cut towards zero, and the
-- minimum for the smaller of the two. The quotient throws where y is zero, and stands for
-- x * 10^18 / y cut towards zero elsewhere.
pub decimal_ops_exact :
    (a b : Text) (x y : ℤ)
    → to_big_int a ≡ some x
    → to_big_int b ≡ some y
    → Denotes (decimal_add a b) (x +ℤ y)
      × Denotes (decimal_subtract a b) (x -ℤ y)
      × ((z : ℤ) × Denotes (decimal_multiply a b) z × IsProduct x y z)
      × ((z : ℤ) × Denotes (decimal_min a b) z × IsMinimum x y z)
      × (((y ≡ pos 0) × (decimal_divide a b ≡ none))
          ⊎ ((y ≢ pos 0) × ((z : ℤ) × Denotes (decimal_divide a b) z × IsQuotient x y z)))
unfolding decimal_add decimal_subtract decimal_multiply
decimal_ops_exact a b x y ha hb = (
  rw (ha, hb) (to_big_int-from_big_int (x +ℤ y)),
  rw (ha, hb) (to_big_int-from_big_int (x -ℤ y)),
  (mul_dec x y, rw (ha, hb) (to_big_int-from_big_int (mul_dec x y)), mul_dec-IsProduct x y),
  decimal_min_lem a b x y ha hb,
  decimal_divide_lem a b x y ha hb,
)
