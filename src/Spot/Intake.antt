-- ===== src/Spot/Intake.antt =====
-- The checks of `placeOrder` (spot.service.ts): account, trading pair, amounts and prices, and an
-- order that was already placed under the same client order id.
use novacex.Prelude.{
  ℕ, Bool, true, false, ◌&&◌, Option, none, some, List, [], ◌∷◌, ◌==◌, if◌then◌else◌,
}
use novacex.Prelude.Int.{ℤ, eqb_ℤ}
use novacex.Prelude.Result.{Result, err, ok, ◌>>=◌}
use novacex.Decimal.{Text, to_big_int}
use novacex.Decimal.Ops.{validate_amount}
use novacex.Spot.{Side, OrderType, limit, market, stop_limit, take_profit_limit, Order, TradingPair}
use novacex.Spot.Matching.{same_side}
use novacex.Spot.Settlement.{
  SpotError, account_not_found, ownership_denied, invalid_account_type, invalid_trading_pair,
  pair_disabled, invalid_price, client_order_conflict, bad_amount,
}

-- A row of accounts.
pub record Account : Type 0 where
  pub id : ℕ
  pub user : ℕ
  pub is_spot : Bool

-- `CreateOrderDto`; a client order id that is blank is left out.
pub record CreateOrder : Type 0 where
  pub account : ℕ
  pub user : ℕ
  pub symbol : ℕ
  pub side : Side
  pub type : OrderType
  pub quantity : Text
  pub price : Option Text
  pub stop_price : Option Text
  pub client_order_id : Option ℕ

unfoldable pub find_account : ℕ → List Account → Option Account
find_account id [] = none
find_account id (a ∷ rest) = if a.id == id then some a else find_account id rest

-- An account that exists, is the user's, and is a spot account.
pub check_account : ℕ → Option Account → Result SpotError (Unit {0})
check_account user none = err account_not_found
check_account user (some a) =
    if a.user == user
    then (if a.is_spot then ok tt else err invalid_account_type)
    else err ownership_denied

find_pair : ℕ → List TradingPair → Option TradingPair
find_pair symbol [] = none
find_pair symbol (p ∷ ps) = if p.symbol == symbol then some p else find_pair symbol ps

check_pair : Option TradingPair → Result SpotError TradingPair
check_pair none = err invalid_trading_pair
check_pair (some p) = if p.is_active then ok p else err pair_disabled

unfoldable pub validate_trading_pair : ℕ → List TradingPair → Result SpotError TradingPair
unfolding find_pair check_pair
validate_trading_pair symbol pairs = check_pair (find_pair symbol pairs)

read_amount : Text → Result SpotError ℤ
read_amount s = elim (to_big_int s) [ none ↦ err bad_amount | some v ↦ ok v ]

-- `validateAmount(s)`, and the number that is read from it later
validated_amount : Text → Result SpotError ℤ
unfolding read_amount
validated_amount s = if validate_amount s then read_amount s else err bad_amount

-- A price that a limit order must have, or one that is read if it is there.
required_price : Option Text → Result SpotError (Option ℤ)
unfolding validated_amount
required_price none = err invalid_price
required_price (some []) = err invalid_price
required_price (some (c ∷ s)) = do v ← validated_amount (c ∷ s); ok (some v)

optional_price : Option Text → Result SpotError (Option ℤ)
unfolding read_amount
optional_price none = ok none
optional_price (some []) = ok none
optional_price (some (c ∷ s)) = do v ← read_amount (c ∷ s); ok (some v)

abbrev pub is_market : OrderType → Bool
is_market market = true
is_market _ = false

abbrev pub is_conditional : OrderType → Bool
is_conditional stop_limit = true
is_conditional take_profit_limit = true
is_conditional _ = false

-- The numbers of an order: quantity, price, stop price.
unfoldable pub read_order : CreateOrder → Result SpotError (ℤ × Option ℤ × Option ℤ)
unfolding validated_amount required_price optional_price
read_order dto = do
  quantity ← validated_amount dto.quantity
  price ← (if is_market dto.type then optional_price dto.price else required_price dto.price)
  stop ←
      (if is_conditional dto.type
        then required_price dto.stop_price
        else optional_price dto.stop_price)
  ok (quantity, price, stop)

-- `SELECT * FROM orders WHERE account_id = $1 AND client_order_id = $2`
has_client_id : ℕ → Option ℕ → Bool
has_client_id id none = false
has_client_id id (some c) = c == id

unfoldable pub find_client_order : ℕ → ℕ → List Order → Option Order
unfolding has_client_id
find_client_order account id [] = none
find_client_order account id (o ∷ os) =
    if o.account == account && has_client_id id o.client_order_id
    then some o
    else find_client_order account id os

same_type : OrderType → OrderType → Bool
same_type limit limit = true
same_type market market = true
same_type stop_limit stop_limit = true
same_type take_profit_limit take_profit_limit = true
same_type _ _ = false

same_price : Option ℤ → Option ℤ → Bool
same_price none q = true
same_price (some p) none = false
same_price (some p) (some q) = eqb_ℤ q p

-- An order under the same client id has the same parameters.
same_order : CreateOrder → ℤ → Option ℤ → Order → Bool
unfolding same_type same_price
same_order dto quantity price o =
    o.symbol == dto.symbol
    && same_side o.side dto.side
    && same_type o.type dto.type
    && eqb_ℤ o.quantity quantity
    && same_price price o.price

unfoldable pub find_existing :
    CreateOrder → ℤ → Option ℤ → List Order → Result SpotError (Option Order)
unfolding same_order
find_existing dto quantity price orders = elim dto.client_order_id [
  | none ↦ ok none
  | some id ↦ elim (find_client_order dto.account id orders) [
    | none ↦ ok none
    | some o ↦
        if same_order dto quantity price o then ok (some o) else err (client_order_conflict id)
  ]
]
