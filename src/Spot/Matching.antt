-- ===== src/Spot/Matching.antt =====
-- `MatchingEngine.match` (matching.engine.ts): an incoming order against the resting orders of the
-- other side, best price first, then oldest first.
use novacex.Prelude.{
  Bool, true, false, not, ◌&&◌, ◌||◌, Option, none, some, List, [], ◌∷◌, ltb, ◌==◌, if◌then◌else◌,
}
use novacex.Prelude.Int.{ℤ, pos, ◌-ℤ◌, ltb_ℤ, leb_ℤ}
use novacex.Decimal.Value.{min_dec}
use novacex.Spot.{
  Side, buy, sell, OrderType, limit, OrderStatus, new, partially_filled, Order, Match,
}

abbrev pub opposite : Side → Side
opposite buy = sell
opposite sell = buy

abbrev pub is_buy : Side → Bool
is_buy buy = true
is_buy sell = false

abbrev pub same_side : Side → Side → Bool
same_side buy s = is_buy s
same_side sell buy = false
same_side sell sell = true

-- `status IN ('NEW', 'PARTIALLY_FILLED')`
abbrev pub is_open : OrderStatus → Bool
is_open new = true
is_open partially_filled = true
is_open _ = false

abbrev pub is_limit : OrderType → Bool
is_limit limit = true
is_limit _ = false

-- `makerOrder.price || '0'`
abbrev pub price_or_zero : Option ℤ → ℤ
price_or_zero none = pos 0
price_or_zero (some p) = p

-- `WHERE symbol = $1 AND side = $2 AND status IN (…)`
abbrev pub is_resting : Order → Order → Bool
is_resting incoming o =
    o.symbol == incoming.symbol && same_side o.side (opposite incoming.side) && is_open o.status

unfoldable pub resting_orders : Order → List Order → List Order
resting_orders incoming [] = []
resting_orders incoming (o ∷ os) =
    let rest = resting_orders incoming os in if is_resting incoming o then o ∷ rest else rest

-- `ORDER BY price`: a row with no price is the last of an ascending order and the first of a
-- descending one.
abbrev pub ascending_before : Option ℤ → Option ℤ → Bool
ascending_before (some p) (some q) = ltb_ℤ p q
ascending_before (some p) none = true
ascending_before none _ = false

abbrev pub price_before : Side → Option ℤ → Option ℤ → Bool
price_before sell p q = ascending_before p q
price_before buy p q = ascending_before q p

-- `ORDER BY price::numeric ${orderDir}, created_at ASC`; `side` is the makers'.
abbrev pub order_before : Side → Order → Order → Bool
order_before side a b =
    price_before side a.price b.price
    || not (price_before side b.price a.price) && ltb a.created_at b.created_at

unfoldable pub insert_order : Side → Order → List Order → List Order
insert_order side o [] = o ∷ []
insert_order side o (p ∷ ps) =
    let later = p ∷ insert_order side o ps in if order_before side p o then later else o ∷ p ∷ ps

unfoldable pub sort_orders : Side → List Order → List Order
unfolding insert_order
sort_orders side [] = []
sort_orders side (o ∷ os) = insert_order side o (sort_orders side os)

-- `makersRes.rows`
unfoldable pub makers : Order → List Order → List Order
unfolding resting_orders sort_orders
makers incoming book = sort_orders (opposite incoming.side) (resting_orders incoming book)

-- A limit that the price passes: an ask above a buy's, a bid below a sell's.
abbrev pub passes : Side → ℤ → ℤ → Bool
passes buy limit_price p = ltb_ℤ limit_price p
passes sell limit_price p = ltb_ℤ p limit_price

abbrev pub passes_price : Side → Option ℤ → ℤ → Bool
passes_price side none p = false
passes_price side (some l) p = passes side l p

-- The price check of a LIMIT order. (The source makes it twice, on the same numbers.)
abbrev pub beyond_limit : Order → Order → Bool
beyond_limit incoming maker =
    is_limit incoming.type && passes_price incoming.side incoming.price (price_or_zero maker.price)

-- What an iteration does: `break`, `continue`, or a match.
pub data Action : Type 0 where
  stop skip fill : Action

unfoldable pub next_action : Order → ℤ → Order → Action
next_action incoming rem maker =
    if leb_ℤ rem (pos 0)
    then stop
    else (if maker.account == incoming.account
        then skip
        else (if beyond_limit incoming maker then stop else fill))

abbrev pub match_of : ℤ → Order → Match
match_of rem maker = record {
  maker = maker;
  exec_price = price_or_zero maker.price;
  exec_qty = min_dec rem maker.remaining_quantity;
  is_buyer_maker = is_buy maker.side;
}

-- The loop: the matches, and what remains.
unfoldable pub match_loop : Order → ℤ → List Order → List Match × ℤ
unfolding next_action
match_loop incoming rem [] = ([], rem)
match_loop incoming rem (maker ∷ rest) = elim (next_action incoming rem maker) [
  | stop ↦ ([], rem)
  | skip ↦ match_loop incoming rem rest
  | fill ↦
      (let (matches, left) =
          match_loop incoming (rem -ℤ min_dec rem maker.remaining_quantity) rest in
        (match_of rem maker ∷ matches, left))
]

-- `match`: the matches, and the incoming order with what remains of it.
unfoldable pub match_order : Order → List Order → List Match × Order
match_order incoming book =
    let (matches, left) = match_loop incoming incoming.remaining_quantity (makers incoming book) in
    (matches, record incoming { remaining_quantity = left })
