-- ===== src/Futures/Laws/Liquidation.antt =====
-- The liquidation price and the liquidation check of an isolated position (risk.service.ts).
use mathlib.Core.Path.{subst}
use native.Mathlib.Nat.{le-div_iff_mul-le, zero-div, div-le_of_le-mul}
use novacex.Prelude.{ℕ, zero, suc, ◌*◌, ◌/◌, ◌≤◌, ◌<◌, ◌≡◌, refl, sym, ap, ◌∙◌, false, arith}
use novacex.Prelude.Int.{
  ℤ, pos, negsuc, neg_ℕ, ◌+ℤ◌, ◌-ℤ◌, ◌*ℤ◌, ◌/ℤ◌, ◌≤ℤ◌, ◌<ℤ◌, +ℤ_parts, -ℤ_parts, pos_part,
}
use novacex.Decimal.{scale}
use novacex.Decimal.Value.{mul_dec, div_dec}
use novacex.Futures.{PositionSide, long, short, isolated, Position}
use novacex.Futures.Risk.{
  price_gain, not_negative, isolated_price, calculate_unrealized_pnl, calculate_position_equity,
  calculate_liquidation_price, check_liquidation,
}

-- A loss of `d` on `q` stays within `k` when `d` stays within the quotient.
loss_within : (d q k s : ℕ) → 0 < q → d ≤ k * s / q → d * q / s ≤ k
loss_within d q k s q_pos h =
    div-le_of_le-mul s (subst (λ x. d * q ≤ x) (ground arith) ((le-div_iff_mul-le q_pos).0 h))

pub neg_ℕ_le : (a b : ℕ) → a ≤ b → neg_ℕ b ≤ℤ neg_ℕ a
neg_ℕ_le a b h = ground arith

neg_ℕ_le_back : (a b : ℕ) → neg_ℕ b ≤ℤ neg_ℕ a → a ≤ b
neg_ℕ_le_back a b h = ground arith

neg_ℕ_div : (a s : ℕ) → neg_ℕ a /ℤ pos s ≡ neg_ℕ (a / s)
unfolding ◌/ℤ◌
neg_ℕ_div zero s = rw (zero-div s) refl
neg_ℕ_div (suc a) s = refl

pub mul_dec_loss : (d q : ℕ) → mul_dec (negsuc d) (pos q) ≡ neg_ℕ (suc d * q / scale)
unfolding mul_dec ◌*ℤ◌
mul_dec_loss d q = neg_ℕ_div (suc d * q) scale

div_dec_loss : (n q : ℕ) → div_dec (negsuc n) (pos q) ≡ neg_ℕ (suc n * scale / q)
unfolding div_dec ◌*ℤ◌
div_dec_loss n q = neg_ℕ_div (suc n * scale) q

-- The gain on a position does not fall below `x` when the price moves no further than `x` over the
-- quantity.
gain_within : (x q d : ℤ) → pos 0 <ℤ q → x ≤ℤ pos 0 → div_dec x q ≤ℤ d → x ≤ℤ mul_dec d q
unfolding mul_dec div_dec ◌*ℤ◌ ◌/ℤ◌
gain_within x (negsuc q) d q_pos h k = absurd (omega arith)
gain_within (pos (suc n)) (pos q) d q_pos h k = absurd (omega arith)
gain_within (pos zero) (pos q) (pos d) q_pos h k = omega arith
gain_within (pos zero) (pos q) (negsuc d) q_pos h k = absurd (omega arith)
gain_within (negsuc n) (pos q) (pos d) q_pos h k = omega arith
gain_within (negsuc n) (pos q) (negsuc d) q_pos h k =
    subst (λ y. negsuc n ≤ℤ y) (sym (mul_dec_loss d q))
      (neg_ℕ_le (suc d * q / scale) (suc n) (
        loss_within (suc d) q (suc n) scale (omega (arith, q_pos)) (
          neg_ℕ_le_back (suc d) (suc n * scale / q)
            (subst (λ y. y ≤ℤ negsuc d) (div_dec_loss n q) k))))

deltas : (im mm : ℤ) → mm ≤ℤ im → (n : ℕ) × (im -ℤ mm ≡ pos n) × (mm -ℤ im ≡ neg_ℕ n)
deltas im mm h = (
  pos_part (im -ℤ mm),
  ground (arith, -ℤ_parts im mm, -ℤ_parts mm im),
  ground (arith, -ℤ_parts im mm, -ℤ_parts mm im),
)

div_dec_neg : (n q : ℕ) → div_dec (neg_ℕ n) (pos q) ≡ neg_ℕ (n * scale / q)
unfolding div_dec ◌*ℤ◌ ◌/ℤ◌
div_dec_neg zero q = rw (zero-div q) refl
div_dec_neg (suc n) q = div_dec_loss n q

div_dec_pos : (n q : ℕ) → div_dec (pos n) (pos q) ≡ pos (n * scale / q)
unfolding div_dec ◌*ℤ◌ ◌/ℤ◌
div_dec_pos n q = refl

within_quotient : (entry mark : ℤ) (n : ℕ) → mark ≤ℤ entry +ℤ pos n → neg_ℕ n ≤ℤ entry -ℤ mark
within_quotient entry mark n h = ground (arith, +ℤ_parts entry (pos n), -ℤ_parts entry mark)

-- For a short position the two deltas are opposite, and so are their quotients.
short_gain :
    (im mm q entry mark : ℤ)
    → pos 0 <ℤ q
    → mm ≤ℤ im
    → mark ≤ℤ entry +ℤ div_dec (im -ℤ mm) q
    → div_dec (mm -ℤ im) q ≤ℤ entry -ℤ mark
short_gain im mm (negsuc q) entry mark q_pos h k = absurd (omega arith)
short_gain im mm (pos q) entry mark q_pos h k =
    let (n, up, down) = deltas im mm h in
    let up' = ap (λ d. div_dec d (pos q)) up ∙ div_dec_pos n q in
    let down' = ap (λ d. div_dec d (pos q)) down ∙ div_dec_neg n q in
    subst (λ y. y ≤ℤ entry -ℤ mark) (sym down')
      (within_quotient entry mark (n * scale / q) (subst (λ y. mark ≤ℤ entry +ℤ y) up' k))

below_zero : (mm im : ℤ) → mm ≤ℤ im → mm -ℤ im ≤ℤ pos 0
below_zero mm im h = ground (arith, -ℤ_parts mm im)

above_entry : (entry mark x : ℤ) → not_negative (entry +ℤ x) ≤ℤ mark → x ≤ℤ mark -ℤ entry
above_entry entry mark x h = ground (arith, +ℤ_parts entry x, -ℤ_parts mark entry)

weaken : (a : ℤ) → pos 0 <ℤ a → pos 0 ≤ℤ a
weaken a h = omega arith

spare : (im mm : ℤ) → mm ≤ℤ im → pos 0 ≤ℤ im -ℤ mm
spare im mm h = ground (arith, -ℤ_parts im mm)

quotient_nonneg : (x q : ℤ) → pos 0 <ℤ q → pos 0 ≤ℤ x → pos 0 ≤ℤ div_dec x q
unfolding div_dec ◌*ℤ◌ ◌/ℤ◌
quotient_nonneg (pos x) (pos q) h k = omega arith
quotient_nonneg (negsuc x) q h k = absurd (omega arith)
quotient_nonneg (pos x) (negsuc q) h k = absurd (omega arith)

not_clamped : (entry x : ℤ) → pos 0 ≤ℤ entry → pos 0 ≤ℤ x → not_negative (entry +ℤ x) ≡ entry +ℤ x
not_clamped entry x h k = ground (arith, +ℤ_parts entry x)

-- A mark price on the safe side of a liquidation price.
abbrev pub IsSafePrice : PositionSide → ℤ → ℤ → Type 0
IsSafePrice long mark price = price ≤ℤ mark
IsSafePrice short mark price = mark ≤ℤ price

-- At a mark price on the safe side of it, the gain covers what the margin exceeds the maintenance
-- margin by.
safe_gain :
    (side : PositionSide) (entry q im mm mark : ℤ)
    → pos 0 <ℤ q
    → pos 0 <ℤ entry
    → mm ≤ℤ im
    → IsSafePrice side mark (isolated_price side entry q im mm)
    → mm -ℤ im ≤ℤ mul_dec (price_gain side entry mark) q
safe_gain long entry q im mm mark q_pos e_pos h k =
    gain_within (mm -ℤ im) q (mark -ℤ entry) q_pos (below_zero mm im h)
      (above_entry entry mark (div_dec (mm -ℤ im) q) k)
safe_gain short entry q im mm mark q_pos e_pos h k =
    gain_within (mm -ℤ im) q (entry -ℤ mark) q_pos (below_zero mm im h) (
      short_gain im mm q entry mark q_pos h (
        subst (λ y. mark ≤ℤ y)
          (not_clamped entry (div_dec (im -ℤ mm) q) (weaken entry e_pos)
            (quotient_nonneg (im -ℤ mm) q q_pos (spare im mm h)))
          k))

equity_covers :
    (p : Position) (available : ℤ)
    → p.margin_mode ≡ isolated
    → pos 0 <ℤ p.quantity
    → p.maintenance_margin -ℤ p.initial_margin
      ≤ℤ mul_dec (price_gain p.side p.entry_price p.mark_price) p.quantity
    → check_liquidation p available ≡ false
unfolding check_liquidation calculate_position_equity calculate_unrealized_pnl
equity_covers p available mode q_pos h = ground (
  arith,
  +ℤ_parts p.initial_margin (mul_dec (price_gain p.side p.entry_price p.mark_price) p.quantity),
  -ℤ_parts p.maintenance_margin p.initial_margin,
)

liquidation_price_isolated :
    (side : PositionSide) (entry q im mm rate am : ℤ)
    → pos 0 <ℤ q
    → pos 0 <ℤ entry
    → calculate_liquidation_price isolated side entry q im mm rate am
      ≡ isolated_price side entry q im mm
unfolding calculate_liquidation_price
liquidation_price_isolated side entry q im mm rate am q_pos e_pos = ground arith

-- An isolated position with a positive quantity and entry price, whose initial margin is not below
-- its maintenance margin, is not liquidated at a mark price on the safe side of its liquidation
-- price: at or above it for a long position, at or below it for a short one. The roundings of the
-- price and of the profit do not matter.
pub check_liquidation-IsSafePrice :
    (p : Position) (rate am available : ℤ)
    → p.margin_mode ≡ isolated
    → pos 0 <ℤ p.quantity
    → pos 0 <ℤ p.entry_price
    → p.maintenance_margin ≤ℤ p.initial_margin
    → IsSafePrice p.side p.mark_price (
        calculate_liquidation_price isolated p.side p.entry_price p.quantity p.initial_margin
          p.maintenance_margin rate am)
    → check_liquidation p available ≡ false
check_liquidation-IsSafePrice p rate am available mode q_pos e_pos h safe =
    equity_covers p available mode q_pos (
      safe_gain p.side p.entry_price p.quantity p.initial_margin p.maintenance_margin p.mark_price
        q_pos e_pos h
        (subst (IsSafePrice p.side p.mark_price)
          (liquidation_price_isolated p.side p.entry_price p.quantity p.initial_margin
            p.maintenance_margin rate am q_pos e_pos)
          safe))
