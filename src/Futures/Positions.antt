-- ===== src/Futures/Positions.antt =====
-- `FuturesPositionService` (position.service.ts), on the list of the rows of futures_positions.
use novacex.Prelude.{ℕ, Bool, true, false, ◌&&◌, ◌||◌, List, [], ◌∷◌, ◌++◌, ◌==◌, if◌then◌else◌}
use novacex.Prelude.Int.{ℤ, pos, ◌+ℤ◌, ◌-ℤ◌, ltb_ℤ, leb_ℤ, eqb_ℤ}
use novacex.Prelude.Result.{Result, err, ok, ◌>>=◌}
use novacex.Decimal.Value.{mul_dec, div_dec}
use novacex.Futures.{
  PositionSide, MarginMode, PositionStatus, open_position, closed, liquidated, Position,
  FuturesError, position_already_liquidated, division_by_zero,
}
use novacex.Futures.Risk.{
  calculate_notional, calculate_initial_margin, calculate_maintenance_margin,
  calculate_unrealized_pnl, calculate_realized_pnl, calculate_liquidation_price,
}

abbrev pub is_open : PositionStatus → Bool
is_open open_position = true
is_open _ = false

-- `CreatePositionParams`
pub record CreatePosition : Type 0 where
  pub account : ℕ
  pub symbol : ℕ
  pub side : PositionSide
  pub quantity : ℤ
  pub entry_price : ℤ
  pub leverage : ℕ
  pub margin_mode : MarginMode
  pub maintenance_margin_rate : ℤ
  pub available_margin : ℤ
  pub collateral_asset : ℕ

abbrev pub opened : ℕ → CreatePosition → ℤ → Position
opened id c initial =
    let maintenance =
      calculate_maintenance_margin c.quantity c.entry_price c.maintenance_margin_rate in
    record {
      id = id;
      account = c.account;
      symbol = c.symbol;
      side = c.side;
      quantity = c.quantity;
      entry_price = c.entry_price;
      mark_price = c.entry_price;
      liquidation_price =
          calculate_liquidation_price c.margin_mode c.side c.entry_price c.quantity initial
            maintenance c.maintenance_margin_rate c.available_margin;
      leverage = c.leverage;
      margin_mode = c.margin_mode;
      initial_margin = initial;
      maintenance_margin = maintenance;
      realized_pnl = pos 0;
      status = open_position;
      collateral_asset = c.collateral_asset;
      maintenance_margin_rate = c.maintenance_margin_rate;
    }

-- `createPosition`; `id` is the fresh UUID.
unfoldable pub create_position :
    ℕ → CreatePosition → List Position → Result FuturesError (Position × List Position)
create_position id c rows = do
  initial ← calculate_initial_margin c.quantity c.entry_price c.leverage
  ok (opened id c initial, rows ++ opened id c initial ∷ [])

-- `UPDATE futures_positions SET … WHERE id = … AND status = 'OPEN'`; the second part says whether a
-- row was updated.
unfoldable pub update_open : ℕ → (Position → Position) → List Position → List Position × Bool
update_open id set [] = ([], false)
update_open id set (row ∷ rows) =
    let (rest, found) = update_open id set rows in
    if row.id == id && is_open row.status then (set row ∷ rest, true) else (row ∷ rest, found)

-- The race guard after an update.
abbrev pub guarded {ℓ} :
    {A : Type ℓ} → ℕ → A → List Position × Bool → Result FuturesError (A × List Position)
guarded id a (rows, found) = if found then ok (a, rows) else err (position_already_liquidated id)

-- `decimalDivide`, which throws on a zero divisor
abbrev pub divided : ℤ → ℤ → Result FuturesError ℤ
divided a b = if eqb_ℤ b (pos 0) then err division_by_zero else ok (div_dec a b)

abbrev pub increased : Position → ℤ → ℤ → ℤ → ℤ → ℤ → ℤ → Position
increased p quantity entry_price mark rate available added =
    let initial = p.initial_margin +ℤ added in
    let maintenance = calculate_maintenance_margin quantity entry_price rate in
    record p {
      quantity = quantity;
      entry_price = entry_price;
      mark_price = mark;
      initial_margin = initial;
      maintenance_margin = maintenance;
      liquidation_price =
          calculate_liquidation_price p.margin_mode p.side entry_price quantity initial maintenance
            rate available;
      maintenance_margin_rate = rate;
    }

-- The columns that an increase and a reduction write.
abbrev pub increase_columns : Position → Position → Position
increase_columns p row = record row {
  quantity = p.quantity;
  entry_price = p.entry_price;
  mark_price = p.mark_price;
  liquidation_price = p.liquidation_price;
  initial_margin = p.initial_margin;
  maintenance_margin = p.maintenance_margin;
  maintenance_margin_rate = p.maintenance_margin_rate;
}

abbrev pub reduce_columns : Position → Position → Position
reduce_columns p row = record row {
  quantity = p.quantity;
  mark_price = p.mark_price;
  initial_margin = p.initial_margin;
  maintenance_margin = p.maintenance_margin;
  liquidation_price = p.liquidation_price;
  realized_pnl = p.realized_pnl;
  status = p.status;
}

-- `increasePosition`
unfoldable pub increase_position :
    Position → ℤ → ℤ → ℤ → ℤ → List Position → Result FuturesError (Position × List Position)
increase_position p add_quantity add_price rate available rows =
    let quantity = p.quantity +ℤ add_quantity in
    let total = mul_dec p.quantity p.entry_price +ℤ mul_dec add_quantity add_price in
    if leb_ℤ add_quantity (pos 0) then ok (p, rows) else (do
      entry_price ← divided total quantity
      added ← calculate_initial_margin add_quantity add_price p.leverage
      let q = increased p quantity entry_price add_price rate available added
      guarded p.id q (update_open p.id (increase_columns q) rows))

pub record ReduceResult : Type 0 where
  pub updated_position : Position
  pub realized_pnl : ℤ
  pub freed_margin : ℤ

abbrev pub actual_reduction : ℤ → ℤ → ℤ
actual_reduction reduce current = if leb_ℤ current reduce then current else reduce

-- The position after a reduction by `q` at `price`.
unfoldable pub reduced : Position → ℤ → ℤ → ℤ → ℤ → Position
reduced p q price rate available =
    let quantity = p.quantity -ℤ q in
    let pnl = p.realized_pnl +ℤ calculate_realized_pnl p.side q p.entry_price price in
    let initial = mul_dec p.initial_margin (div_dec quantity p.quantity) in
    let maintenance = calculate_maintenance_margin quantity p.entry_price rate in
    if ltb_ℤ (pos 0) quantity
    then record p {
      quantity = quantity;
      mark_price = price;
      initial_margin = initial;
      maintenance_margin = maintenance;
      liquidation_price =
          calculate_liquidation_price p.margin_mode p.side p.entry_price quantity initial
            maintenance rate available;
      realized_pnl = pnl;
      status = open_position;
    }
    else record p {
      quantity = quantity;
      mark_price = price;
      initial_margin = pos 0;
      maintenance_margin = pos 0;
      liquidation_price = pos 0;
      realized_pnl = pnl;
      status = closed;
    }

abbrev pub reduce_result : Position → ℤ → ℤ → ℤ → ℤ → ReduceResult
reduce_result p q price rate available =
    let after = reduced p q price rate available in
    record {
      updated_position = after;
      realized_pnl = calculate_realized_pnl p.side q p.entry_price price;
      freed_margin = p.initial_margin -ℤ after.initial_margin;
    }

abbrev pub unreduced : Position → ReduceResult
unreduced p = record { updated_position = p; realized_pnl = pos 0; freed_margin = pos 0 }

-- `reducePosition`
unfoldable pub reduce_position :
    Position → ℤ → ℤ → ℤ → ℤ → List Position → Result FuturesError (ReduceResult × List Position)
reduce_position p reduce price rate available rows =
    let q = actual_reduction reduce p.quantity in
    let r = reduce_result p q price rate available in
    if leb_ℤ reduce (pos 0) || leb_ℤ p.quantity (pos 0)
    then ok (unreduced p, rows)
    else guarded p.id r (update_open p.id (reduce_columns r.updated_position) rows)

pub record LiquidationResult : Type 0 where
  pub liquidated_position : Position
  pub realized_pnl : ℤ
  pub fee : ℤ
  pub total_return : ℤ
  pub deficit : ℤ

-- `UPDATE … SET status = 'LIQUIDATED' … WHERE id = …`, whatever the row's status.
abbrev pub liquidated_row : Position → Position → Position
liquidated_row p row = record row {
  status = liquidated;
  mark_price = p.mark_price;
  realized_pnl = p.realized_pnl;
  initial_margin = pos 0;
  maintenance_margin = pos 0;
}

unfoldable pub update_liquidated : Position → List Position → List Position
update_liquidated p [] = []
update_liquidated p (row ∷ rows) =
    (if row.id == p.id then liquidated_row p row else row) ∷ update_liquidated p rows

-- 0.0005
abbrev pub liquidation_fee_rate : ℤ
liquidation_fee_rate = pos 500000000000000

unfoldable pub liquidation_result : Position → ℤ → LiquidationResult
liquidation_result p mark =
    let pnl = calculate_unrealized_pnl p.side p.quantity p.entry_price mark in
    let fee = mul_dec (calculate_notional p.quantity mark) liquidation_fee_rate in
    let equity = p.initial_margin +ℤ pnl -ℤ fee in
    record {
      liquidated_position = record p {
        status = liquidated;
        mark_price = mark;
        realized_pnl = p.realized_pnl +ℤ pnl;
        initial_margin = pos 0;
        maintenance_margin = pos 0;
      };
      realized_pnl = pnl;
      fee = fee;
      total_return = if ltb_ℤ equity (pos 0) then pos 0 else equity;
      deficit = if ltb_ℤ equity (pos 0) then pos 0 -ℤ equity else pos 0;
    }

-- `liquidatePosition`
unfoldable pub liquidate_position : Position → ℤ → List Position → LiquidationResult × List Position
liquidate_position p mark rows =
    let r = liquidation_result p mark in (r, update_liquidated r.liquidated_position rows)
