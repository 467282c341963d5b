-- ===== src/Futures/Laws/Equity.antt =====
-- What a liquidation pays out (position.service.ts), and what an initial margin is (risk.service.ts).
use native.Mathlib.Nat.{mul-div-mul_right, zero-div}
use novacex.Prelude.{
  ℕ, zero, suc, ◌/◌, ◌≤◌, ◌≡◌, refl, sym, ap, ◌∙◌, ◌⊎◌, inl, inr, Bool-cases, arith, if◌then◌else◌,
}
use novacex.Prelude.Int.{ℤ, pos, ◌+ℤ◌, ◌-ℤ◌, ◌*ℤ◌, ◌/ℤ◌, ◌≤ℤ◌, ltb_ℤ, leb_ℤ, int_laws, -ℤ_parts}
use novacex.Prelude.Result.{err, ok}
use novacex.Decimal.Value.{div_dec}
use novacex.Futures.{Position, invalid_leverage}
use novacex.Futures.Risk.{calculate_notional, calculate_initial_margin, is_valid_leverage, whole}
use novacex.Futures.Positions.{liquidation_result}

split_equity :
    (e : ℤ)
    → let give = if ltb_ℤ e (pos 0) then pos 0 else e in
      let owe = if ltb_ℤ e (pos 0) then pos 0 -ℤ e else pos 0 in
      (give -ℤ owe ≡ e) × (pos 0 ≤ℤ give) × (pos 0 ≤ℤ owe) × ((give ≡ pos 0) ⊎ (owe ≡ pos 0))
split_equity e = elim (Bool-cases (ltb_ℤ e (pos 0))) [
  | inl neg ↦ rw neg (omega int_laws, omega arith, ground (arith, -ℤ_parts (pos 0) e), inl refl)
  | inr not ↦ rw not (omega int_laws, ground arith, omega arith, inr refl)
]

-- A liquidation pays out the margin plus the profit less the fee when that is positive, and reports
-- the rest as a deficit when it is not: the two differ by exactly that equity, neither is negative,
-- and one of them is zero.
pub liquidation_result-split :
    (p : Position) (mark : ℤ)
    → let r = liquidation_result p mark in
      (r.total_return -ℤ r.deficit ≡ p.initial_margin +ℤ r.realized_pnl -ℤ r.fee)
      × (pos 0 ≤ℤ r.total_return)
      × (pos 0 ≤ℤ r.deficit)
      × ((r.total_return ≡ pos 0) ⊎ (r.deficit ≡ pos 0))
unfolding liquidation_result
liquidation_result-split p mark =
    let r = liquidation_result p mark in split_equity (p.initial_margin +ℤ r.realized_pnl -ℤ r.fee)

whole_quotient : (n l : ℕ) → div_dec (pos n) (whole l) ≡ pos (n / l)
unfolding div_dec ◌*ℤ◌ ◌/ℤ◌
whole_quotient n l = ap pos (mul-div-mul_right n l (omega arith))

positive :
    (n l : ℕ)
    → 1 ≤ n
    → (if leb_ℤ (pos n) (pos 0) then pos 0 else div_dec (pos n) (whole l))
      ≡ div_dec (pos n) (whole l)
positive n l h = ground arith

margin_of_ℕ :
    (n l : ℕ) → (if leb_ℤ (pos n) (pos 0) then pos 0 else div_dec (pos n) (whole l)) ≡ pos (n / l)
margin_of_ℕ zero l = ap pos (sym (zero-div l))
margin_of_ℕ (suc n) l = positive (suc n) l (omega arith) ∙ whole_quotient (suc n) l

margin_value :
    (x : ℤ) (n l : ℕ)
    → x ≡ pos n
    → (if leb_ℤ x (pos 0) then pos 0 else div_dec x (whole l)) ≡ pos (n / l)
margin_value x n l h = rw h (margin_of_ℕ n l)

-- The initial margin of a quantity at a price is the notional over the leverage, rounded down, for
-- every leverage from 1 to 125, and any other leverage is refused.
pub calculate_initial_margin-exact :
    (quantity price : ℤ) (leverage n : ℕ)
    → calculate_notional quantity price ≡ pos n
    → ((1 ≤ leverage)
        × (leverage ≤ 125)
        × (calculate_initial_margin quantity price leverage ≡ ok (pos (n / leverage))))
      ⊎ (calculate_initial_margin quantity price leverage ≡ err (invalid_leverage leverage))
unfolding calculate_initial_margin
calculate_initial_margin-exact quantity price leverage n h =
    elim (Bool-cases (is_valid_leverage leverage)) [
      | inl valid ↦ inl (
        ground arith,
        ground arith,
        rw (valid, calculate_initial_margin)
            (ap ok (margin_value (calculate_notional quantity price) n leverage h)),
      )
      | inr bad ↦ inr (rw (bad, calculate_initial_margin) refl)
    ]
