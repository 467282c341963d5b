-- ===== src/Futures/Risk.antt =====
-- `FuturesRiskService` (risk.service.ts).
use novacex.Prelude.{ℕ, ◌*◌, Bool, false, ◌&&◌, ◌||◌, leb, if◌then◌else◌}
use novacex.Prelude.Int.{ℤ, pos, ◌+ℤ◌, ◌-ℤ◌, ltb_ℤ, leb_ℤ}
use novacex.Prelude.Result.{Result, err, ok}
use novacex.Decimal.{scale}
use novacex.Decimal.Value.{mul_dec, div_dec}
use novacex.Futures.{
  PositionSide, long, short, MarginMode, isolated, cross, Position, FuturesError, invalid_leverage,
}

-- `isValidLeverage` with its default maximum; a leverage here is a whole number. (The list of
-- allowed leverages does not matter: the other side of its `||` holds for every leverage in range.)
abbrev pub is_valid_leverage : ℕ → Bool
is_valid_leverage leverage = leb 1 leverage && leb leverage 125

-- The decimal string of a whole number, as a number.
abbrev pub whole : ℕ → ℤ
whole n = pos (n * scale)

unfoldable pub calculate_notional : ℤ → ℤ → ℤ
calculate_notional quantity price =
    if leb_ℤ quantity (pos 0) || leb_ℤ price (pos 0) then pos 0 else mul_dec quantity price

unfoldable pub calculate_initial_margin : ℤ → ℤ → ℕ → Result FuturesError ℤ
calculate_initial_margin quantity price leverage =
    let notional = calculate_notional quantity price in
    if is_valid_leverage leverage
    then ok (if leb_ℤ notional (pos 0) then pos 0 else div_dec notional (whole leverage))
    else err (invalid_leverage leverage)

unfoldable pub calculate_maintenance_margin : ℤ → ℤ → ℤ → ℤ
calculate_maintenance_margin quantity price rate =
    let notional = calculate_notional quantity price in
    if leb_ℤ notional (pos 0) || leb_ℤ rate (pos 0) then pos 0 else mul_dec notional rate

unfoldable pub has_sufficient_margin : ℤ → ℤ → Bool
has_sufficient_margin available required =
    if leb_ℤ required (pos 0) then false else leb_ℤ required available

abbrev pub price_gain : PositionSide → ℤ → ℤ → ℤ
price_gain long entry mark = mark -ℤ entry
price_gain short entry mark = entry -ℤ mark

unfoldable pub calculate_unrealized_pnl : PositionSide → ℤ → ℤ → ℤ → ℤ
calculate_unrealized_pnl side quantity entry mark =
    if leb_ℤ quantity (pos 0) then pos 0 else mul_dec (price_gain side entry mark) quantity

unfoldable pub calculate_realized_pnl : PositionSide → ℤ → ℤ → ℤ → ℤ
calculate_realized_pnl side quantity entry close =
    if leb_ℤ quantity (pos 0) then pos 0 else mul_dec (price_gain side entry close) quantity

abbrev pub margin_base : MarginMode → ℤ → ℤ → ℤ
margin_base isolated available initial = initial
margin_base cross available initial = available +ℤ initial

unfoldable pub calculate_position_equity : Position → ℤ → ℤ
calculate_position_equity p available =
    margin_base p.margin_mode available p.initial_margin
    +ℤ calculate_unrealized_pnl p.side p.quantity p.entry_price p.mark_price

unfoldable pub calculate_margin_ratio : ℤ → ℤ → ℤ
calculate_margin_ratio maintenance equity =
    if leb_ℤ equity (pos 0)
    then whole 1
    else (if leb_ℤ maintenance (pos 0) then pos 0 else div_dec maintenance equity)

abbrev pub not_negative : ℤ → ℤ
not_negative x = if ltb_ℤ x (pos 0) then pos 0 else x

abbrev pub isolated_price : PositionSide → ℤ → ℤ → ℤ → ℤ → ℤ
isolated_price long entry q im mm = not_negative (entry +ℤ div_dec (mm -ℤ im) q)
isolated_price short entry q im mm = not_negative (entry +ℤ div_dec (im -ℤ mm) q)

abbrev pub cross_quotient : ℤ → ℤ → ℤ
cross_quotient numerator denominator =
    if leb_ℤ denominator (pos 0) then pos 0 else not_negative (div_dec numerator denominator)

abbrev pub cross_price : PositionSide → ℤ → ℤ → ℤ → ℤ → ℤ → ℤ
cross_price long entry q im am rate =
    cross_quotient (mul_dec entry q -ℤ im -ℤ am) (mul_dec q (whole 1 -ℤ rate))
cross_price short entry q im am rate =
    cross_quotient (mul_dec entry q +ℤ im +ℤ am) (mul_dec q (whole 1 +ℤ rate))

abbrev pub mode_price : MarginMode → PositionSide → ℤ → ℤ → ℤ → ℤ → ℤ → ℤ → ℤ
mode_price isolated side entry q im mm am rate = isolated_price side entry q im mm
mode_price cross side entry q im mm am rate = cross_price side entry q im am rate

-- The position's mode, side, entry price, quantity and margins; the rate; the available margin.
unfoldable pub calculate_liquidation_price : MarginMode → PositionSide → ℤ → ℤ → ℤ → ℤ → ℤ → ℤ → ℤ
calculate_liquidation_price mode side entry q im mm rate am =
    if leb_ℤ q (pos 0) || leb_ℤ entry (pos 0)
    then pos 0
    else mode_price mode side entry q im mm am rate

unfoldable pub check_liquidation : Position → ℤ → Bool
check_liquidation p available = ltb_ℤ (calculate_position_equity p available) p.maintenance_margin

pub data RiskStatus : Type 0 where
  safe warning liquidation_risk : RiskStatus

-- 0.9 and 0.6
unfoldable pub get_risk_status : ℤ → RiskStatus
get_risk_status ratio =
    if leb_ℤ (pos 900000000000000000) ratio
    then liquidation_risk
    else (if leb_ℤ (pos 600000000000000000) ratio then warning else safe)
