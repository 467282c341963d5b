-- ===== src/Futures/Funding/Rate.antt =====
-- The execution fee (fee.service.ts), the funding rate and the estimate of a payment (funding.service.ts).
use novacex.Prelude.{Bool, ◌||◌, Option, none, some, if◌then◌else◌}
use novacex.Prelude.Int.{ℤ, pos, neg, ◌+ℤ◌, ◌-ℤ◌, ltb_ℤ, leb_ℤ}
use novacex.Decimal.Value.{mul_dec, div_dec}
use novacex.Futures.{PositionSide, long, short, Position}

-- `calculateExecutionFee`: 0.0002 for a maker and 0.0005 for a taker
abbrev pub execution_fee_rate : Bool → ℤ
execution_fee_rate is_maker = if is_maker then pos 200000000000000 else pos 500000000000000

unfoldable pub calculate_execution_fee : ℤ → ℤ → Bool → ℤ
calculate_execution_fee quantity price is_maker =
    mul_dec (mul_dec quantity price) (execution_fee_rate is_maker)

-- 0.0001, 0.0050 and -0.0050
abbrev pub interest_rate : ℤ
interest_rate = pos 100000000000000

abbrev pub funding_cap : ℤ
funding_cap = pos 5000000000000000

abbrev pub funding_floor : ℤ
funding_floor = neg (pos 5000000000000000)

-- `AdaptiveFundingResult`, less its time.
pub record FundingRate : Type 0 where
  pub funding_rate : ℤ
  pub mark_price : ℤ
  pub index_price : ℤ
  pub premium : ℤ
  pub premium_index : ℤ
  pub raw_funding_rate : ℤ

unfoldable pub clamp_rate : ℤ → ℤ
unfolding neg
clamp_rate raw =
    if ltb_ℤ funding_cap raw
    then funding_cap
    else if ltb_ℤ raw funding_floor
    then funding_floor
    else raw

abbrev pub rate_at : ℤ → ℤ → FundingRate
rate_at mark index =
    let premium = mark -ℤ index in
    let raw = div_dec premium index +ℤ interest_rate in
    record {
      funding_rate = clamp_rate raw;
      mark_price = mark;
      index_price = index;
      premium = premium;
      premium_index = div_dec premium index;
      raw_funding_rate = raw;
    }

-- `calculateAdaptiveFundingRate`, on the two prices of the market data service: none where it throws.
unfoldable pub calculate_adaptive_funding_rate : Option ℤ → Option ℤ → Option FundingRate
calculate_adaptive_funding_rate none index = none
calculate_adaptive_funding_rate (some mark) none = none
calculate_adaptive_funding_rate (some mark) (some index) =
    if leb_ℤ mark (pos 0) || leb_ℤ index (pos 0) then none else some (rate_at mark index)

abbrev pub signed_funding : PositionSide → ℤ → ℤ
signed_funding long amount = pos 0 -ℤ amount
signed_funding short amount = amount

-- `calculateEstimatedFunding`
unfoldable pub calculate_estimated_funding : Position → ℤ → ℤ → ℤ
calculate_estimated_funding p mark rate =
    signed_funding p.side (mul_dec (mul_dec p.quantity mark) rate)
