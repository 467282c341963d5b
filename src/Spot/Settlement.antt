-- ===== src/Spot/Settlement.antt =====
-- `settleMatch` (spot.service.ts): the ledger entries of one match, its two trades, and the
-- progress of its two orders. A throw undoes the whole transaction that it stands in, so an error
-- carries no state.
use novacex.Prelude.{
  ℕ, ◌+◌, ◌*◌, ◌^◌, Bool, Option, none, some, List, [], ◌∷◌, ◌++◌, ◌==◌, if◌then◌else◌, map,
}
use novacex.Prelude.Int.{ℤ, pos, ◌+ℤ◌, ◌-ℤ◌, ltb_ℤ, leb_ℤ}
use novacex.Prelude.Result.{Result, err, ok, ◌>>=◌}
use novacex.Decimal.{from_big_int}
use novacex.Decimal.Value.{mul_dec}
use novacex.Ledger.{
  LedgerError, Db, TransactionResult, PostInput, EntryInput, Direction, credit, debit, Pool,
  available, locked, Entry, spot_trade_settle,
}
use novacex.Ledger.Post.{post_transaction}
use novacex.Spot.{
  Side, buy, sell, OrderStatus, filled, partially_filled, Order, TradingPair, Match, Trade,
}
use novacex.Spot.Matching.{is_buy, is_limit}

-- The tables that the spot service writes.
pub record Exchange : Type 0 where
  pub db : Db
  pub orders : List Order
  pub trades : List Trade

pub data SpotError : Type 0 where
  account_not_found ownership_denied invalid_account_type : SpotError
  invalid_trading_pair pair_disabled invalid_price : SpotError
  order_not_found order_not_cancellable no_liquidity : SpotError
  client_order_conflict : ℕ → SpotError
  bad_amount : SpotError
  -- a TypeError where a price is null
  missing_price : SpotError
  ledger_error : LedgerError → SpotError

-- A call of the ledger inside the transaction.
abbrev pub posted : Exchange → Result LedgerError TransactionResult × Db → Result SpotError Exchange
posted x (err e, db) = err (ledger_error e)
posted x (ok r, db) = ok (record x { db = db })

-- `SPOT-TRADE-${id}`; the other references of the service have a prefix of their own.
abbrev pub trade_reference : ℕ → ℕ
trade_reference id = 1 * 2 ^ 128 + id

-- The account that collects fees, 11111111-1111-1111-1111-111111111111.
abbrev pub fee_account : ℕ
fee_account = 0x11111111111111111111111111111111

-- The numbers of one settlement.
pub record Terms : Type 0 where
  pub buyer : Order
  pub seller : Order
  pub quote_qty : ℤ
  pub buyer_fee : ℤ
  pub buyer_received_base : ℤ
  pub seller_fee : ℤ
  pub seller_received_quote : ℤ

abbrev pub fee_rate : TradingPair → Bool → ℤ
fee_rate pair is_maker = if is_maker then pair.maker_fee_rate else pair.taker_fee_rate

unfoldable pub terms_of : TradingPair → Order → Match → Terms
terms_of pair taker m =
    let buyer = if is_buy taker.side then taker else m.maker in
    let seller = if is_buy taker.side then m.maker else taker in
    let quote_qty = mul_dec m.exec_qty m.exec_price in
    let buyer_fee = mul_dec m.exec_qty (fee_rate pair (buyer.id == m.maker.id)) in
    let seller_fee = mul_dec quote_qty (fee_rate pair (seller.id == m.maker.id)) in
    record {
      buyer = buyer;
      seller = seller;
      quote_qty = quote_qty;
      buyer_fee = buyer_fee;
      buyer_received_base = m.exec_qty -ℤ buyer_fee;
      seller_fee = seller_fee;
      seller_received_quote = quote_qty -ℤ seller_fee;
    }

abbrev pub entry : ℕ → ℕ → ℤ → Direction → Pool → Entry
entry account asset amount direction pool = record {
  account = account;
  asset = asset;
  direction = direction;
  amount = amount;
  pool = pool;
}

-- A fee entry, if there is a fee.
abbrev pub fee_entry : ℕ → ℤ → List Entry
fee_entry asset fee =
    if ltb_ℤ (pos 0) fee then entry fee_account asset fee credit available ∷ [] else []

abbrev pub refund_pair : Order → ℕ → ℤ → List Entry
refund_pair buyer asset amount =
    if ltb_ℤ (pos 0) amount
    then entry buyer.account asset amount debit locked
      ∷ entry buyer.account asset amount credit available
      ∷ []
    else []

abbrev pub refund_at : Order → ℕ → Match → Option ℤ → List Entry
refund_at buyer asset m none = []
refund_at buyer asset m (some p) =
    if ltb_ℤ m.exec_price p
    then refund_pair buyer asset (mul_dec m.exec_qty (p -ℤ m.exec_price))
    else []

-- What a LIMIT buyer locked above the price that the match was made at.
abbrev pub refund_entries : Order → ℕ → Match → List Entry
refund_entries buyer asset m =
    if is_limit buyer.type then refund_at buyer asset m buyer.price else []

-- The entries, as amounts.
unfoldable pub settle_entries : TradingPair → Order → Match → List Entry
unfolding terms_of
settle_entries pair taker m =
    let t = terms_of pair taker m in
    (entry t.buyer.account pair.quote_asset t.quote_qty debit locked
      ∷ entry t.buyer.account pair.base_asset t.buyer_received_base credit available
      ∷ entry t.seller.account pair.base_asset m.exec_qty debit locked
      ∷ entry t.seller.account pair.quote_asset t.seller_received_quote credit available
      ∷ fee_entry pair.base_asset t.buyer_fee)
    ++ fee_entry pair.quote_asset t.seller_fee
    ++ refund_entries t.buyer pair.quote_asset m

-- An entry as it is posted, its amount a decimal string.
abbrev pub to_input : Entry → EntryInput
to_input e = record {
  account = e.account;
  asset = e.asset;
  direction = e.direction;
  amount = from_big_int e.amount;
  balance_pool = some e.pool;
}

-- The reference is fresh, so the description is never compared; it is 0 here.
abbrev pub settle_input : ℕ → TradingPair → Order → Match → PostInput
settle_input trade_id pair taker m = record {
  account = (terms_of pair taker m).buyer.account;
  transaction_type = spot_trade_settle;
  reference = trade_reference trade_id;
  description = 0;
  entries = map to_input (settle_entries pair taker m);
}

-- What an order has filled and left after a match.
abbrev pub fill_order : ℤ → Order → Order
fill_order qty o = record o {
  filled_quantity = o.filled_quantity +ℤ qty;
  remaining_quantity = o.remaining_quantity -ℤ qty;
}

abbrev pub maker_status : ℤ → OrderStatus
maker_status left = if leb_ℤ left (pos 0) then filled else partially_filled

abbrev pub fill_maker : ℤ → Order → Order
fill_maker qty o = record (fill_order qty o) { status = maker_status (o.remaining_quantity -ℤ qty) }

-- `UPDATE orders SET filled_quantity, remaining_quantity, status WHERE id = …`
abbrev pub progress : Order → Order → Order
progress o row = record row {
  filled_quantity = o.filled_quantity;
  remaining_quantity = o.remaining_quantity;
  status = o.status;
}

unfoldable pub update_order : Order → List Order → List Order
update_order o [] = []
update_order o (row ∷ rows) = (if row.id == o.id then progress o row else row) ∷ update_order o rows

abbrev pub trade_of : ℕ → Order → Order → TradingPair → Side → Match → ℤ → ℤ → ℕ → Trade
trade_of id o counterparty pair side m quote_qty fee fee_asset = record {
  id = id;
  order_id = o.id;
  account = o.account;
  symbol = pair.symbol;
  side = side;
  price = m.exec_price;
  quantity = m.exec_qty;
  quote_quantity = quote_qty;
  fee = fee;
  fee_asset = fee_asset;
  is_maker = o.id == m.maker.id;
  counterparty_order_id = counterparty.id;
}

unfoldable pub trades_of : ℕ → ℕ → TradingPair → Order → Match → List Trade
trades_of buyer_id seller_id pair taker m =
    let t = terms_of pair taker m in
    trade_of buyer_id t.buyer t.seller pair buy m t.quote_qty t.buyer_fee pair.base_asset
    ∷ trade_of seller_id t.seller t.buyer pair sell m t.quote_qty t.seller_fee pair.quote_asset
    ∷ []

-- `settleMatch`: the taker is the order object that `match` has changed. `fresh` gives the random
-- UUIDs: two trades and the ledger transaction.
unfoldable pub settle_match :
    (ℕ → ℕ)
    → ℕ
    → TradingPair
    → Match
    → Order
    → Exchange
    → Result SpotError (List Trade × Order × Exchange)
settle_match fresh n pair m taker x = do
  y ← posted x (post_transaction (fresh (n + 2)) (settle_input (fresh n) pair taker m) x.db)
  let done = trades_of (fresh n) (fresh (n + 1)) pair taker m
  ok (
    done,
    fill_order m.exec_qty taker,
    record y {
      orders = update_order (fill_maker m.exec_qty m.maker) y.orders;
      trades = y.trades ++ done;
    },
  )

-- The loop over the matches of an order.
unfoldable pub settle_all :
    (ℕ → ℕ)
    → ℕ
    → TradingPair
    → List Match
    → Order
    → Exchange
    → Result SpotError (List Trade × Order × Exchange)
settle_all fresh n pair [] taker x = ok ([], taker, x)
settle_all fresh n pair (m ∷ ms) taker x = do
  one ← settle_match fresh n pair m taker x
  rest ← settle_all fresh (n + 3) pair ms one.1 one.2
  ok (one.0 ++ rest.0, rest.1, rest.2)
