-- ===== src/Futures/Evaluation/Closing.antt =====
-- The settlement of a liquidation and the rows it writes (`evaluateAndLiquidate`, liquidation.service.ts).
use novacex.Prelude.{
  ℕ, suc, ◌+◌, ◌*◌, ◌^◌, ◌&&◌, not, Option, none, some, List, [], ◌∷◌, ◌++◌, map, if◌then◌else◌,
}
use novacex.Prelude.Int.{ℤ, pos, pos_part, ◌+ℤ◌, ◌-ℤ◌, ltb_ℤ}
use novacex.Prelude.Result.{Result, err, ok, ◌>>=◌}
use novacex.Decimal.{Text, from_big_int}
use novacex.Ledger.{futures_liquidation, Entry, EntryInput, Db, LedgerError, TransactionResult}
use novacex.Ledger.Post.{post_transaction}
use novacex.Futures.{
  PositionSide, long, short, PositionStatus, open_position, liquidated, Position, FuturesError,
  liquidation_not_eligible, ledger_error,
}
use novacex.Futures.Risk.{
  calculate_maintenance_margin, calculate_liquidation_price, calculate_position_equity,
  check_liquidation,
}
use novacex.Futures.Positions.{divided}
use novacex.Futures.Waterfall.{
  insurance_fund, Progress, start_progress, liquidation_loop, adl_draw, liquidation_entries,
}
use novacex.Futures.Evaluation.Tables.{
  Liquidation, pending, AdlEvent, FuturesStore, Surroundings, update_position, available_in,
}
use novacex.Futures.Evaluation.Guards.{resolve_mark_price, lock_position}

abbrev pub liquidation_input : Entry → EntryInput
liquidation_input e = record {
  account = e.account;
  asset = e.asset;
  direction = e.direction;
  amount = from_big_int e.amount;
  balance_pool = some e.pool;
}

-- `FUTURES-LIQ-` with the position and the time of its last update.
abbrev pub liquidation_reference : ℕ → ℕ → ℕ
liquidation_reference position updated = (position * 2 ^ 64 + updated) * 2

abbrev pub settled_db : Db → Result LedgerError TransactionResult × Db → Result FuturesError Db
settled_db before (err e, db) = err (ledger_error e)
settled_db before (ok r, db) = ok db

-- The settlement, if it has any entry.
unfoldable pub post_liquidation :
    Surroundings → Position → ℕ → List Entry → Db → Result FuturesError Db
post_liquidation u p description [] db = ok db
post_liquidation u p description (e ∷ es) db = settled_db db (
    post_transaction u.transaction_id
      (record {
        account = p.account;
        transaction_type = futures_liquidation;
        reference = liquidation_reference p.id (u.updated_at p.id);
        description = description;
        entries = map liquidation_input (e ∷ es);
      })
      db)

abbrev pub final_status : Progress → PositionStatus
final_status s = if s.is_fully_liquidated then liquidated else open_position

abbrev pub final_mm : Position → Progress → ℤ
final_mm p s =
    calculate_maintenance_margin s.remaining_quantity p.entry_price p.maintenance_margin_rate

abbrev pub final_liquidation_price : Position → Progress → ℤ
final_liquidation_price p s =
    if not s.is_fully_liquidated && ltb_ℤ (pos 0) s.remaining_quantity
    then calculate_liquidation_price p.margin_mode p.side p.entry_price s.remaining_quantity
        s.remaining_im (final_mm p s) p.maintenance_margin_rate s.current_avail
    else p.liquidation_price

-- The columns of the position's row that a liquidation writes; `p` is the locked row.
abbrev pub liquidated_columns : Position → ℤ → Progress → Position → Position
liquidated_columns p mark s row = record row {
  quantity = s.remaining_quantity;
  mark_price = mark;
  initial_margin = s.remaining_im;
  maintenance_margin = final_mm p s;
  liquidation_price = final_liquidation_price p s;
  realized_pnl = p.realized_pnl +ℤ s.total_realized_pnl;
  status = final_status s;
}

abbrev pub bankruptcy_price_of : PositionSide → ℤ → ℤ → ℤ
bankruptcy_price_of long entry per_unit = entry -ℤ per_unit
bankruptcy_price_of short entry per_unit = entry +ℤ per_unit

abbrev pub liquidation_row : ℕ → Position → ℤ → Progress → Liquidation
liquidation_row id p bankruptcy s = record {
  id = id;
  position = p.id;
  account = p.account;
  symbol = p.symbol;
  side = p.side;
  quantity = s.total_reduced_quantity;
  bankruptcy_price = bankruptcy;
  liquidation_price = p.liquidation_price;
  loss_amount = s.total_realized_pnl;
  insurance_fund_delta = s.total_insurance_delta;
}

-- The event that is inserted for a deficit the insurance fund cannot pay.
abbrev pub adl_event_rows : ℕ → ℕ → Position → ℤ → List AdlEvent
adl_event_rows id liquidation p draw =
    if ltb_ℤ (pos 0) draw
    then record {
      id = id;
      liquidation = liquidation;
      counterparty_account = none;
      counterparty_position = none;
      symbol = p.symbol;
      side = p.side;
      reduced_quantity = none;
      execution_price = none;
      status = pending;
      target_deficit = draw;
      resolved_deficit = pos 0;
    }
      ∷ []
    else []

-- What the transaction returns.
pub record Evaluation : Type 0 where
  pub liquidation : Liquidation
  pub position : Position
  pub mark_price : ℤ
  pub total_realized_pnl : ℤ
  pub total_fee : ℤ
  pub total_return : ℤ
  pub deficit : ℤ
  pub final_status : PositionStatus

abbrev pub evaluation_of : Position → ℤ → Liquidation → Progress → Evaluation
evaluation_of p mark liquidation s =
    let net = s.total_user_credit -ℤ s.total_user_deduction in
    record {
      liquidation = liquidation;
      position = record p {
        mark_price = mark;
        quantity = s.remaining_quantity;
        initial_margin = s.remaining_im;
        maintenance_margin = final_mm p s;
      };
      mark_price = mark;
      total_realized_pnl = s.total_realized_pnl;
      total_fee = s.total_fee;
      total_return = if ltb_ℤ (pos 0) net then net else pos 0;
      deficit = if ltb_ℤ (pos 0) net then pos 0 else pos 0 -ℤ net;
      final_status = final_status s;
    }

-- A round for each unit of the quantity, and the last look.
abbrev pub loop_fuel : Position → ℕ
loop_fuel p = suc (pos_part p.quantity)

-- The settlement of a position that is liquidated at a price.
unfoldable pub liquidate_at :
    Surroundings → Position → ℤ → FuturesStore → Result FuturesError (Evaluation × FuturesStore)
liquidate_at u p mark x =
    let asset = p.collateral_asset in
    let avail = available_in p.account asset x.db.wallets in
    let vault = available_in insurance_fund asset x.db.wallets in
    do
      s ← liquidation_loop (loop_fuel p) p mark p.maintenance_margin_rate (start_progress p avail)
      db ←
          post_liquidation u p (u.settlement_text p.symbol p.side s.total_reduced_quantity mark)
            (liquidation_entries p asset vault s) x.db
      per_unit ← divided p.initial_margin p.quantity
      let row =
          liquidation_row u.liquidation_id p (bankruptcy_price_of p.side p.entry_price per_unit) s
      ok (
        evaluation_of p mark row s,
        record {
          db = db;
          positions = update_position p.id (liquidated_columns p mark s) x.positions;
          liquidations = x.liquidations ++ row ∷ [];
          adl_events =
              x.adl_events
              ++ adl_event_rows u.adl_event_id u.liquidation_id p (adl_draw vault s.total_deficit);
        },
      )

-- `checkLiquidation`, at the price.
unfoldable pub check_eligible : Position → ℤ → Result FuturesError (Unit {0})
check_eligible p avail =
    if check_liquidation p avail
    then ok tt
    else err
        (liquidation_not_eligible p.id (calculate_position_equity p avail) p.maintenance_margin)

-- `evaluateAndLiquidate`: the position, the override and the account that may liquidate it. What it
-- throws is rolled back.
unfoldable pub evaluate_and_liquidate :
    Surroundings
    → ℕ
    → Option Text
    → Option ℕ
    → FuturesStore
    → Result FuturesError (Evaluation × FuturesStore)
unfolding lock_position liquidate_at check_eligible
evaluate_and_liquidate u id override authorized x = do
  p ← lock_position id authorized x.positions
  mark ← resolve_mark_price u.mark_prices override p
  checked ←
      check_eligible (record p { mark_price = mark })
        (available_in p.account p.collateral_asset x.db.wallets)
  liquidate_at u p mark x
