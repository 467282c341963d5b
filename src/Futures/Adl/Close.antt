-- ===== src/Futures/Adl/Close.antt =====
-- What is taken from one counterparty, its ledger post and its row (adl.service.ts).
use novacex.Prelude.{ℕ, ◌+◌, ◌*◌, ◌^◌, Option, none, some, List, [], ◌∷◌, ◌++◌, map, if◌then◌else◌}
use novacex.Prelude.Int.{ℤ, pos, ◌+ℤ◌, ◌-ℤ◌, ◌*ℤ◌, ◌/ℤ◌, ltb_ℤ, leb_ℤ}
use novacex.Prelude.Result.{Result, ok, ◌>>=◌}
use novacex.Decimal.{scale}
use novacex.Decimal.Value.{mul_dec}
use novacex.Ledger.{futures_liquidation, credit, debit, available, locked, Entry, Db}
use novacex.Ledger.Post.{post_transaction}
use novacex.Futures.{PositionStatus, open_position, closed, Position, FuturesError}
use novacex.Futures.Risk.{
  calculate_notional, calculate_maintenance_margin, calculate_realized_pnl, whole,
}
use novacex.Futures.Positions.{divided}
use novacex.Futures.Waterfall.{insurance_fund, adl_suspense, fund_entry, if_positive}
use novacex.Futures.Evaluation.{AdlEvent, liquidation_input, settled_db}
use novacex.Futures.Adl.Candidates.{AdlSurroundings}

-- 0.0001 and 5.0
abbrev pub lot_and_notional : Option (ℤ × ℤ) → ℤ × ℤ
lot_and_notional none = (pos 100000000000000, whole 5)
lot_and_notional (some pair) = pair

-- What is taken from a counterparty.
pub record Extraction : Type 0 where
  pub reduce_quantity : ℤ
  pub recovered_deficit : ℤ
  pub extracted_profit : ℤ
  pub final_status : PositionStatus

-- The profits of a quantity of the position at the mark and at the bankruptcy price.
abbrev pub profit_at : Position → ℤ → ℤ → ℤ
profit_at p quantity price = calculate_realized_pnl p.side quantity p.entry_price price

abbrev pub denied_profit : Position → ℤ → ℤ → ℤ → ℤ
denied_profit p quantity mark bankruptcy =
    profit_at p quantity mark -ℤ profit_at p quantity bankruptcy

abbrev pub full_extraction : Position → ℤ → ℤ → Extraction
full_extraction p mark bankruptcy = record {
  reduce_quantity = p.quantity;
  recovered_deficit = denied_profit p p.quantity mark bankruptcy;
  extracted_profit = profit_at p p.quantity bankruptcy;
  final_status = closed;
}

-- `decimal.split('.')[0]`, as a number
abbrev pub whole_part : ℤ → ℤ
whole_part x = x /ℤ pos scale *ℤ pos scale

-- The whole lots of a quantity, but one lot at least.
abbrev pub aligned : ℤ → ℤ → ℤ
aligned lots lot =
    let quantity = mul_dec (whole_part lots) lot in if leb_ℤ quantity (pos 0) then lot else quantity

-- The rest of the position may not fall below the least notional.
abbrev pub without_dust : Position → ℤ → ℤ → ℤ → ℤ
without_dust p bankruptcy least quantity =
    let rest = p.quantity -ℤ quantity in
    if ltb_ℤ (pos 0) rest
    then (if ltb_ℤ (calculate_notional rest bankruptcy) least then p.quantity else quantity)
    else quantity

abbrev pub partial_extraction : Position → ℤ → ℤ → ℤ → Extraction
partial_extraction p mark bankruptcy quantity =
    if leb_ℤ p.quantity quantity then full_extraction p mark bankruptcy else record {
      reduce_quantity = quantity;
      recovered_deficit = denied_profit p quantity mark bankruptcy;
      extracted_profit = profit_at p quantity bankruptcy;
      final_status = open_position;
    }

unfoldable pub extraction : Position → ℤ → ℤ → ℤ × ℤ → ℤ → Result FuturesError Extraction
extraction p mark bankruptcy (lot, least) remaining =
    let denied = denied_profit p p.quantity mark bankruptcy in
    if ltb_ℤ remaining denied
    then (do
      ratio ← divided remaining denied
      lots ← divided (mul_dec p.quantity ratio) lot
      ok (
          partial_extraction p mark bankruptcy
            (without_dust p bankruptcy least (aligned lots lot))))
    else ok (full_extraction p mark bankruptcy)

-- The entries of one counterparty's close.
unfoldable pub deleveraging_entries : Position → ℤ → Extraction → List Entry
deleveraging_entries p released t =
    fund_entry p.account p.collateral_asset released debit locked
    ∷ fund_entry p.account p.collateral_asset released credit available
    ∷ (if_positive t.extracted_profit (
          fund_entry insurance_fund p.collateral_asset t.extracted_profit debit available
          ∷ fund_entry p.account p.collateral_asset t.extracted_profit credit available
          ∷ [])
        ++ if_positive t.recovered_deficit (
            fund_entry insurance_fund p.collateral_asset t.recovered_deficit debit available
            ∷ fund_entry adl_suspense p.collateral_asset t.recovered_deficit credit available
            ∷ []))

-- `FUTURES-ADL-` with the event, the position and the time of its last update.
abbrev pub adl_reference : ℕ → ℕ → ℕ → ℕ
adl_reference event position updated = ((event * 2 ^ 128 + position) * 2 ^ 64 + updated) * 2 + 1

unfoldable pub post_deleveraging :
    AdlSurroundings → AdlEvent → Position → ℤ → ℤ → Extraction → Db → Result FuturesError Db
post_deleveraging u e p bankruptcy released t db = settled_db db (
    post_transaction (u.transaction_ids p.id)
      (record {
        account = p.account;
        transaction_type = futures_liquidation;
        reference = adl_reference e.id p.id (u.updated_at p.id);
        description = u.settlement_text e.symbol p.side t.reduce_quantity bankruptcy;
        entries = map liquidation_input (deleveraging_entries p released t);
      })
      db)

-- The columns of the counterparty's row that are written; `p` is the locked row.
abbrev pub deleveraged_columns : Position → ℤ → Extraction → Position → Position
deleveraged_columns p released t row =
    let quantity = p.quantity -ℤ t.reduce_quantity in
    record row {
      quantity = quantity;
      initial_margin = p.initial_margin -ℤ released;
      maintenance_margin =
          calculate_maintenance_margin quantity p.entry_price p.maintenance_margin_rate;
      realized_pnl = p.realized_pnl +ℤ t.extracted_profit;
      status = t.final_status;
    }
