-- ===== src/Futures/Tests.antt =====
-- The theorems on futures at a concrete position.
use novacex.Prelude.{ℕ, ◌*◌, ◌≡◌, refl, false, List, [], ◌∷◌, arith}
use novacex.Prelude.Int.{ℤ, pos, ◌+ℤ◌, ◌-ℤ◌, ◌*ℤ◌, ◌/ℤ◌}
use novacex.Prelude.Result.{Result, err, ok}
use novacex.Decimal.Value.{mul_dec, div_dec}
use novacex.Futures.{long, isolated, open_position, liquidated, Position, FuturesError}
use novacex.Futures.Risk.{
  calculate_notional, calculate_initial_margin, calculate_maintenance_margin,
  calculate_realized_pnl, calculate_liquidation_price, check_liquidation,
}
use novacex.Futures.Positions.{
  ReduceResult, reduce_position, reduced, reduce_result, update_open, liquidation_result,
}
use novacex.Futures.Laws.Liquidation.{check_liquidation-IsSafePrice}

abbrev units : ℕ → ℤ
units n = pos (n * 1000000000000000000)

-- 3 long at 100 with a margin of 30 and a maintenance margin of 3: liquidated below 91.
abbrev position : Position
position = record {
  id = 1;
  account = 5;
  symbol = 9;
  side = long;
  quantity = units 3;
  entry_price = units 100;
  mark_price = units 91;
  liquidation_price = units 91;
  leverage = 10;
  margin_mode = isolated;
  initial_margin = units 30;
  maintenance_margin = units 3;
  realized_pnl = pos 0;
  status = open_position;
  collateral_asset = 11;
  maintenance_margin_rate = pos 10000000000000000;
}

run_risk : ℤ → ℤ
unfolding calculate_liquidation_price check_liquidation mul_dec div_dec ◌+ℤ◌ ◌-ℤ◌ ◌*ℤ◌ ◌/ℤ◌
    calculate_notional calculate_initial_margin calculate_maintenance_margin calculate_realized_pnl
    reduce_position reduced update_open liquidation_result
run_risk q = calculate_notional q q

check_liquidation-IsSafePrice_example : check_liquidation position (pos 0) ≡ false
unfolding run_risk
check_liquidation-IsSafePrice_example =
    check_liquidation-IsSafePrice position (pos 10000000000000000) (pos 0) (pos 0) refl
      (omega arith) (omega arith) (omega arith) (omega arith)

abbrev dead : Position
dead = record position { id = 2; status = liquidated }

abbrev or_start : Result FuturesError (ReduceResult × List Position) → ReduceResult × List Position
or_start (ok r) = r
or_start (err e) = (reduce_result position (pos 0) (pos 0) (pos 0) (pos 0), [])

-- One of the three is closed at 110.
abbrev close_one : ReduceResult × List Position
close_one = or_start (
    reduce_position position (units 1) (units 110) (pos 10000000000000000) (pos 0)
      (position ∷ dead ∷ []))
