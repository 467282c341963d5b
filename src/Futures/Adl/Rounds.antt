-- ===== src/Futures/Adl/Rounds.antt =====
-- The loop over the counterparties and the event (`processAdlEvent`, adl.service.ts).
use novacex.Prelude.{ℕ, Bool, true, false, Option, none, some, List, [], ◌∷◌, if◌then◌else◌}
use novacex.Prelude.Int.{ℤ, pos, ◌+ℤ◌, ◌-ℤ◌, ltb_ℤ, leb_ℤ}
use novacex.Prelude.Result.{Result, err, ok, ◌>>=◌}
use novacex.Decimal.{Text, to_big_int}
use novacex.Decimal.Value.{mul_dec}
use novacex.Ledger.{Db, invalid_amount}
use novacex.Futures.{Position, FuturesError, mark_price_unavailable, ledger_error}
use novacex.Futures.Positions.{divided}
use novacex.Futures.Evaluation.{
  AdlStatus, partially_settled, settled, unresolved, AdlEvent, FuturesStore, update_position,
}
use novacex.Futures.Adl.Candidates.{
  AdlSurroundings, find_event, update_event, find_liquidation, opposite_side, ranked_candidates,
}
use novacex.Futures.Adl.Close.{
  lot_and_notional, Extraction, denied_profit, extraction, post_deleveraging, deleveraged_columns,
}

-- The variables of the loop over the counterparties, and the tables that it writes.
pub record Recovery : Type 0 where
  pub remaining_deficit : ℤ
  pub total_extracted : ℤ
  pub last_account : Option ℕ
  pub last_position : Option ℕ
  pub last_quantity : ℤ
  pub db : Db
  pub positions : List Position

abbrev pub recovered : Position → ℤ → Extraction → Db → Recovery → Recovery
recovered p released t db r = record {
  remaining_deficit = r.remaining_deficit -ℤ t.recovered_deficit;
  total_extracted = r.total_extracted +ℤ t.recovered_deficit;
  last_account = some p.account;
  last_position = some p.id;
  last_quantity = t.reduce_quantity;
  db = db;
  positions = update_position p.id (deleveraged_columns p released t) r.positions;
}

-- One counterparty, where something is to be recovered from it.
unfoldable pub deleverage_one :
    AdlSurroundings → AdlEvent → ℤ → ℤ → ℤ × ℤ → Position → Recovery → Result FuturesError Recovery
unfolding extraction post_deleveraging
deleverage_one u e mark bankruptcy pair p r = do
  t ← extraction p mark bankruptcy pair r.remaining_deficit
  ratio ← divided t.reduce_quantity p.quantity
  let released = mul_dec p.initial_margin ratio
  db ← post_deleveraging u e p bankruptcy released t r.db
  ok (recovered p released t db r)

-- The loop: it stops when nothing remains, and passes over who has nothing to give.
unfoldable pub deleverage_all :
    AdlSurroundings
    → AdlEvent
    → ℤ
    → ℤ
    → ℤ × ℤ
    → List Position
    → Recovery
    → Result FuturesError Recovery
unfolding deleverage_one
deleverage_all u e mark bankruptcy pair [] r = ok r
deleverage_all u e mark bankruptcy pair (p ∷ ps) r =
    let passed = deleverage_all u e mark bankruptcy pair ps r in
    let taken = (do
      s ← deleverage_one u e mark bankruptcy pair p r
      deleverage_all u e mark bankruptcy pair ps s) in
    if leb_ℤ r.remaining_deficit (pos 0)
    then ok r
    else if leb_ℤ (denied_profit p p.quantity mark bankruptcy) (pos 0)
    then passed
    else taken

-- The override, else the provider's price, which a candle replaces.
abbrev pub latest_close : Option ℤ → ℤ → ℤ
latest_close none price = price
latest_close (some close) price = close

abbrev pub read_override : Text → Result FuturesError ℤ
read_override text = elim (to_big_int text) [
  | none ↦ err (ledger_error (invalid_amount text))
  | some x ↦ ok x
]

abbrev pub provided_price : AdlSurroundings → ℕ → Result FuturesError ℤ
provided_price u symbol = elim (u.mark_prices symbol) [
  | none ↦ err (mark_price_unavailable symbol)
  | some price ↦ ok (latest_close (u.close_prices symbol) price)
]

abbrev pub current_mark_price : AdlSurroundings → Option Text → ℕ → Result FuturesError ℤ
current_mark_price u none symbol = provided_price u symbol
current_mark_price u (some []) symbol = provided_price u symbol
current_mark_price u (some (c ∷ text)) symbol = read_override (c ∷ text)

abbrev pub status_after : AdlEvent → ℤ → AdlStatus
status_after e total =
    if leb_ℤ e.target_deficit (e.resolved_deficit +ℤ total)
    then settled
    else if ltb_ℤ (pos 0) total
    then partially_settled
    else unresolved

abbrev pub event_columns : AdlEvent → ℤ → Recovery → AdlEvent → AdlEvent
event_columns e bankruptcy r row = record row {
  counterparty_account = r.last_account;
  counterparty_position = r.last_position;
  reduced_quantity = some r.last_quantity;
  execution_price = some bankruptcy;
  resolved_deficit = e.resolved_deficit +ℤ r.total_extracted;
  status = status_after e r.total_extracted;
}

-- `UPDATE futures_adl_events SET status = … WHERE id = $1`
unfoldable pub mark_event : ℕ → AdlStatus → FuturesStore → FuturesStore
unfolding update_event
mark_event id status x = record x {
  adl_events = update_event id (λ e. record e { status = status }) x.adl_events;
}

abbrev pub start_recovery : ℤ → FuturesStore → Recovery
start_recovery remaining x = record {
  remaining_deficit = remaining;
  total_extracted = pos 0;
  last_account = none;
  last_position = none;
  last_quantity = pos 0;
  db = x.db;
  positions = x.positions;
}

-- The counterparties of an event, ranked, and what is recovered from them.
unfoldable pub recover_from :
    AdlSurroundings
    → AdlEvent
    → ℤ
    → ℤ
    → List Position
    → FuturesStore
    → Result FuturesError FuturesStore
unfolding deleverage_all mark_event
recover_from u e mark bankruptcy [] x = ok (mark_event e.id unresolved x)
recover_from u e mark bankruptcy (p ∷ ps) x = do
  r ←
      deleverage_all u e mark bankruptcy (lot_and_notional (u.trading_pairs e.symbol)) (p ∷ ps)
        (start_recovery (e.target_deficit -ℤ e.resolved_deficit) x)
  ok (record x {
    db = r.db;
    positions = r.positions;
    adl_events = update_event e.id (event_columns e bankruptcy r) x.adl_events;
  })

-- An event that is not over.
unfoldable pub recover_deficit :
    AdlSurroundings → AdlEvent → Option Text → FuturesStore → Result FuturesError FuturesStore
unfolding recover_from
recover_deficit u e override x =
    if leb_ℤ (e.target_deficit -ℤ e.resolved_deficit) (pos 0)
    then ok (mark_event e.id settled x)
    else elim (find_liquidation e.liquidation x.liquidations) [
      | none ↦ ok (mark_event e.id unresolved x)
      | some l ↦ (do
        mark ← current_mark_price u override e.symbol
        let ranked = ranked_candidates e.symbol (opposite_side e.side) mark x.positions
        recover_from u e mark l.bankruptcy_price ranked x)
    ]

abbrev pub is_event_over : AdlStatus → Bool
is_event_over settled = true
is_event_over unresolved = true
is_event_over _ = false

-- `processAdlEvent`, which rolls back what it throws.
unfoldable pub process_adl_event :
    AdlSurroundings → ℕ → Option Text → FuturesStore → Result FuturesError FuturesStore
unfolding recover_deficit
process_adl_event u id override x = elim (find_event id x.adl_events) [
  | none ↦ ok x
  | some e ↦ if is_event_over e.status then ok x else recover_deficit u e override x
]
