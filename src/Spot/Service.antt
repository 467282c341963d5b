-- ===== src/Spot/Service.antt =====
-- `SpotService` (spot.service.ts): placing, triggering and cancelling an order. Each method runs in
-- one database transaction, so a throw leaves the tables as they were. Events are not modelled.
use novacex.Prelude.{
  ℕ, ◌+◌, ◌*◌, ◌^◌, Bool, true, false, ◌&&◌, Option, none, some, List, [], ◌∷◌, ◌==◌, if◌then◌else◌,
  take,
}
use novacex.Prelude.Int.{ℤ, pos, ◌+ℤ◌, ◌-ℤ◌, ltb_ℤ, leb_ℤ, eqb_ℤ}
use novacex.Prelude.Result.{Result, err, ok, ◌>>=◌}
use novacex.Decimal.{from_big_int}
use novacex.Decimal.Value.{mul_dec, min_dec}
use novacex.Ledger.{TxType, spot_order_unlock}
use novacex.Ledger.Service.{Movement, release}
use novacex.Spot.{
  Side, buy, sell, OrderType, partially_filled, filled, expired, Order, TradingPair, Trade,
}
use novacex.Spot.Matching.{is_buy, same_side, is_open, sort_orders, match_order}
use novacex.Spot.Settlement.{
  Exchange, SpotError, no_liquidity, missing_price, posted, update_order, settle_all,
}
use novacex.Spot.Intake.{is_market}

-- `getDepth`: the open asks of a symbol, summed by price, best first.
is_ask : ℕ → Order → Bool
is_ask symbol o = o.symbol == symbol && same_side o.side sell && is_open o.status

asks_of : ℕ → List Order → List Order
unfolding is_ask
asks_of symbol [] = []
asks_of symbol (o ∷ os) = let rest = asks_of symbol os in if is_ask symbol o then o ∷ rest else rest

price_eq : Option ℤ → Option ℤ → Bool
price_eq none none = true
price_eq (some p) (some q) = eqb_ℤ p q
price_eq _ _ = false

-- An order that is no better than every level joins the first one, or makes a new one before it.
add_level : Order → List (Option ℤ × ℤ) → List (Option ℤ × ℤ)
unfolding price_eq
add_level o [] = (o.price, o.remaining_quantity) ∷ []
add_level o ((p, q) ∷ ls) =
    if price_eq o.price p
    then (p, o.remaining_quantity +ℤ q) ∷ ls
    else (o.price, o.remaining_quantity) ∷ (p, q) ∷ ls

levels : List Order → List (Option ℤ × ℤ)
unfolding add_level
levels [] = []
levels (o ∷ os) = add_level o (levels os)

unfoldable pub ask_levels : ℕ → List Order → List (Option ℤ × ℤ)
unfolding asks_of levels
ask_levels symbol orders = take 100 (levels (sort_orders sell (asks_of symbol orders)))

-- What a market buy costs on the levels: `totalQuote`.
unfoldable pub book_cost : ℤ → ℤ → List (Option ℤ × ℤ) → Result SpotError ℤ
book_cost needed total [] = ok total
book_cost needed total ((none, q) ∷ ls) = err missing_price
book_cost needed total ((some p, q) ∷ ls) =
    let taken = min_dec needed q in
    let total' = total +ℤ mul_dec taken p in
    let rest = book_cost (needed -ℤ taken) total' ls in
    if leb_ℤ (needed -ℤ taken) (pos 0) then ok total' else rest

unfoldable pub market_cost : ℤ → List (Option ℤ × ℤ) → Result SpotError ℤ
market_cost qty [] = err no_liquidity
market_cost qty (l ∷ ls) = do
  total ← book_cost qty (pos 0) (l ∷ ls)
  (if leb_ℤ total (pos 0) then err no_liquidity else ok total)

unfoldable pub buy_cost : ℤ → Option ℤ → Result SpotError ℤ
buy_cost qty none = err missing_price
buy_cost qty (some p) = ok (mul_dec qty p)

-- The asset and the amount that an order locks.
unfoldable pub lock_of :
    Side → OrderType → ℤ → Option ℤ → TradingPair → List Order → Result SpotError (ℕ × ℤ)
unfolding market_cost buy_cost
lock_of sell type qty price pair orders = ok (pair.base_asset, qty)
lock_of buy type qty price pair orders = do
  amount ←
      (if is_market type
        then market_cost qty (ask_levels pair.symbol orders)
        else buy_cost qty price)
  ok (pair.quote_asset, amount)

-- `SPOT-LOCK-${id}` and `SPOT-UNLOCK-${id}`
abbrev pub lock_reference : ℕ → ℕ
lock_reference id = 2 * 2 ^ 128 + id

abbrev pub unlock_reference : ℕ → ℕ
unlock_reference id = 3 * 2 ^ 128 + id

-- A movement of an order's funds; `text` is 1 for the description of a cancellation.
abbrev pub movement : Order → ℕ → ℤ → TxType → ℕ → ℕ → Movement
movement o asset amount type reference text = record {
  account = o.account;
  asset = asset;
  amount = from_big_int amount;
  transaction_type = type;
  reference = reference;
  description = text;
}

-- The status after the matches.
unfoldable pub finish_order : Order → Order
finish_order o =
    if leb_ℤ o.remaining_quantity (pos 0)
    then record o { status = filled; filled_quantity = o.quantity; remaining_quantity = pos 0 }
    else (if ltb_ℤ (pos 0) o.filled_quantity then record o { status = partially_filled } else o)

-- `usedQuote`: what the order's own trades cost
unfoldable pub used_quote : ℕ → List Trade → ℤ
used_quote id [] = pos 0
used_quote id (t ∷ ts) = (if t.order_id == id then t.quote_quantity else pos 0) +ℤ used_quote id ts

-- The release of what a market order has left.
unfoldable pub release_rest :
    ℕ → TradingPair → Order → List Trade → Exchange → Result SpotError Exchange
release_rest id pair o trades x =
    let unused = o.locked_amount -ℤ used_quote o.id trades in
    let give = λ (asset : ℕ). λ (amount : ℤ).
      posted x
        (release id (movement o asset amount spot_order_unlock (unlock_reference o.id) 0) x.db) in
    if is_buy o.side
    then (if ltb_ℤ (pos 0) unused then give pair.quote_asset unused else ok x)
    else give pair.base_asset o.remaining_quantity

-- A market order that is not filled: its status, and the release.
unfoldable pub finish_market :
    ℕ → TradingPair → Order → List Trade → Exchange → Result SpotError (Order × Exchange)
finish_market id pair o trades x =
    if is_market o.type && ltb_ℤ (pos 0) o.remaining_quantity
    then (do
      y ← release_rest id pair o trades x
      ok (
        record o { status = if ltb_ℤ (pos 0) o.filled_quantity then partially_filled else expired },
        y,
      ))
    else ok (o, x)

-- The match of an order with the book, its settlement, and its row.
unfoldable pub run_order :
    (ℕ → ℕ) → TradingPair → Order → Exchange → Result SpotError ((Order × List Trade) × Exchange)
run_order fresh pair o x = do
  let (matches, taker) = match_order o x.orders
  settled ← settle_all fresh 3 pair matches taker x
  done ← finish_market (fresh 2) pair (finish_order settled.1) settled.0 settled.2
  ok ((done.0, settled.0), record (done.1) { orders = update_order done.0 (done.1).orders })
