-- ===== src/Spot.antt =====
-- server/src/services/spot/matching.engine.ts and spot.service.ts with models/order.model.ts: spot
-- orders, their matching against the resting orders of the database, and their settlement.
-- Prices, quantities and amounts are the numbers that the decimal strings stand for. A time is a
-- number. The SQL queries are functions on the list of the table's rows.
pub mod Matching
pub mod Settlement
pub mod Intake
pub mod Service
pub mod Operations
pub mod Laws
mod Tests
use novacex.Prelude.{ℕ, Bool, Option}
use novacex.Prelude.Int.{ℤ}

pub data Side : Type 0 where
  buy sell : Side

pub data OrderType : Type 0 where
  limit market stop_limit take_profit_limit : OrderType

pub data OrderStatus : Type 0 where
  untriggered new partially_filled filled cancelled rejected expired : OrderStatus

-- `OrderEntity`, less its market (here SPOT), its timeInForce and its updatedAt.
pub record Order : Type 0 where
  pub id : ℕ
  pub client_order_id : Option ℕ
  pub account : ℕ
  pub symbol : ℕ
  pub side : Side
  pub type : OrderType
  pub price : Option ℤ
  pub stop_price : Option ℤ
  pub quantity : ℤ
  pub filled_quantity : ℤ
  pub remaining_quantity : ℤ
  pub locked_amount : ℤ
  pub locked_asset : ℕ
  pub status : OrderStatus
  pub created_at : ℕ

-- `TradingPairEntity`, what the spot service reads of it.
pub record TradingPair : Type 0 where
  pub symbol : ℕ
  pub base_asset : ℕ
  pub quote_asset : ℕ
  pub maker_fee_rate : ℤ
  pub taker_fee_rate : ℤ
  pub is_active : Bool

-- `MatchResult`; the taker is the incoming order.
pub record Match : Type 0 where
  pub maker : Order
  pub exec_price : ℤ
  pub exec_qty : ℤ
  pub is_buyer_maker : Bool

-- `TradeEntity`, less its market and its time.
pub record Trade : Type 0 where
  pub id : ℕ
  pub order_id : ℕ
  pub account : ℕ
  pub symbol : ℕ
  pub side : Side
  pub price : ℤ
  pub quantity : ℤ
  pub quote_quantity : ℤ
  pub fee : ℤ
  pub fee_asset : ℕ
  pub is_maker : Bool
  pub counterparty_order_id : ℕ
