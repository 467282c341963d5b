-- ===== src/Spot/Operations.antt =====
-- `placeOrder`, `triggerOrder` and `cancelOrder` (spot.service.ts).
use novacex.Prelude.{
  ℕ, Bool, true, false, Option, none, some, List, [], ◌∷◌, ◌++◌, ◌==◌, if◌then◌else◌,
}
use novacex.Prelude.Int.{ℤ, pos, ltb_ℤ}
use novacex.Prelude.Result.{Result, err, ok, ◌>>=◌}
use novacex.Decimal.Value.{mul_dec}
use novacex.Ledger.{spot_order_lock, spot_order_unlock}
use novacex.Ledger.Service.{reserve, release}
use novacex.Spot.{
  Side, buy, sell, OrderStatus, untriggered, new, partially_filled, cancelled, Order, TradingPair,
  Trade,
}
use novacex.Spot.Matching.{match_order}
use novacex.Spot.Settlement.{
  Exchange, SpotError, ownership_denied, order_not_found, order_not_cancellable, posted,
  update_order, settle_all,
}
use novacex.Spot.Intake.{
  Account, CreateOrder, find_account, check_account, validate_trading_pair, is_conditional,
  read_order, find_existing,
}
use novacex.Spot.Service.{
  lock_of, movement, lock_reference, unlock_reference, finish_order, run_order,
}

-- `SELECT * FROM trades WHERE order_id = $1`
unfoldable pub trades_of_order : ℕ → List Trade → List Trade
trades_of_order id [] = []
trades_of_order id (t ∷ ts) =
    let rest = trades_of_order id ts in if t.order_id == id then t ∷ rest else rest

-- The order as it is inserted.
abbrev pub new_order : ℕ → ℕ → CreateOrder → ℤ × Option ℤ × Option ℤ → ℕ × ℤ → Order
new_order id now dto (quantity, price, stop) (asset, amount) = record {
  id = id;
  client_order_id = dto.client_order_id;
  account = dto.account;
  symbol = dto.symbol;
  side = dto.side;
  type = dto.type;
  price = price;
  stop_price = stop;
  quantity = quantity;
  filled_quantity = pos 0;
  remaining_quantity = quantity;
  locked_amount = amount;
  locked_asset = asset;
  status = if is_conditional dto.type then untriggered else new;
  created_at = now;
}

-- A new order locks its funds, is inserted, and is matched unless it waits for its trigger.
unfoldable pub open_order :
    (ℕ → ℕ)
    → ℕ
    → TradingPair
    → CreateOrder
    → ℤ × Option ℤ × Option ℤ
    → Exchange
    → Result SpotError ((Order × List Trade) × Exchange)
open_order fresh now pair dto numbers x = do
  lock ← lock_of dto.side dto.type numbers.0 numbers.1 pair x.orders
  let o = new_order (fresh 0) now dto numbers lock
  y ← posted x (
      reserve (fresh 1)
        (movement o o.locked_asset o.locked_amount spot_order_lock (lock_reference o.id) 0) x.db)
  let z = record y { orders = y.orders ++ o ∷ [] }
  (if is_conditional dto.type then ok ((o, []), z) else run_order fresh pair o z)

-- `placeOrder`; `fresh` gives the random UUIDs: the order, then one for each ledger transaction and
-- trade.
unfoldable pub place_order :
    (ℕ → ℕ)
    → ℕ
    → List Account
    → List TradingPair
    → CreateOrder
    → Exchange
    → Result SpotError ((Order × List Trade) × Exchange)
place_order fresh now accounts pairs dto x = do
  owner ← check_account dto.user (find_account dto.account accounts)
  pair ← validate_trading_pair dto.symbol pairs
  numbers ← read_order dto
  existing ← find_existing dto numbers.0 numbers.1 x.orders
  elim existing [
    | some o ↦ ok ((o, trades_of_order o.id x.trades), x)
    | none ↦ open_order fresh now pair dto numbers x
  ]

unfoldable pub find_order : ℕ → List Order → Option Order
find_order id [] = none
find_order id (o ∷ os) = if o.id == id then some o else find_order id os

is_untriggered : OrderStatus → Bool
is_untriggered untriggered = true
is_untriggered _ = false

-- The matches of a triggered order; market orders are never conditional.
trigger_found : (ℕ → ℕ) → List TradingPair → Order → Exchange → Result SpotError Exchange
trigger_found fresh pairs row x = do
  let o = record row { status = new }
  let y = record x { orders = update_order o x.orders }
  pair ← validate_trading_pair o.symbol pairs
  let (matches, taker) = match_order o y.orders
  settled ← settle_all fresh 3 pair matches taker y
  let z = settled.2
  ok (record z { orders = update_order (finish_order settled.1) z.orders })

-- `triggerOrder`: nothing happens unless the order is there and untriggered.
unfoldable pub trigger_order : (ℕ → ℕ) → List TradingPair → ℕ → Exchange → Result SpotError Exchange
unfolding is_untriggered trigger_found
trigger_order fresh pairs id x = elim (find_order id x.orders) [
  | none ↦ ok x
  | some o ↦ elim (is_untriggered o.status) [ false ↦ ok x | true ↦ trigger_found fresh pairs o x ]
]

-- What a cancelled order gives back.
abbrev pub priced_rest : Order → Option ℤ → ℤ
priced_rest o none = o.locked_amount
priced_rest o (some p) = mul_dec o.remaining_quantity p

abbrev pub side_rest : Order → Side → ℤ
side_rest o buy = priced_rest o o.price
side_rest o sell = o.remaining_quantity

abbrev pub release_amount : Order → ℤ
release_amount o = side_rest o o.side

unfoldable pub release_cancelled : ℕ → Order → Exchange → Result SpotError Exchange
release_cancelled id o x =
    if ltb_ℤ (pos 0) (release_amount o)
    then posted x (
        release id
          (movement o o.locked_asset (release_amount o) spot_order_unlock (unlock_reference o.id) 1)
          x.db)
    else ok x

unfoldable pub cancel_open : ℕ → Order → Exchange → Result SpotError (Order × Exchange)
cancel_open id o x = do
  y ← release_cancelled id o x
  let done = record o { status = cancelled }
  ok (done, record y { orders = update_order done y.orders })

unfoldable pub cancel_by_status :
    OrderStatus → ℕ → Order → Exchange → Result SpotError (Order × Exchange)
unfolding cancel_open
cancel_by_status cancelled id o x = ok (o, x)
cancel_by_status new id o x = cancel_open id o x
cancel_by_status partially_filled id o x = cancel_open id o x
cancel_by_status untriggered id o x = cancel_open id o x
cancel_by_status _ id o x = err order_not_cancellable

unfoldable pub check_owner : ℕ → Option Account → Result SpotError (Unit {0})
check_owner user none = err ownership_denied
check_owner user (some a) = if a.user == user then ok tt else err ownership_denied

-- `cancelOrder`
unfoldable pub cancel_order :
    ℕ → List Account → ℕ → ℕ → Exchange → Result SpotError (Order × Exchange)
unfolding check_owner
cancel_order id accounts user order_id x = elim (find_order order_id x.orders) [
  | none ↦ err order_not_found
  | some o ↦ (do
    owner ← check_owner user (find_account o.account accounts)
    cancel_by_status o.status id o x)
]
