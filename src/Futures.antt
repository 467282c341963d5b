-- ===== src/Futures.antt =====
-- server/src/services/futures with models/futures.model.ts: the margin arithmetic of futures, the
-- life of a position, its liquidation, auto-deleveraging, funding, and take-profit and stop-loss.
-- Amounts, prices and rates are the numbers that the decimal strings stand for.
pub mod Risk
pub mod Positions
pub mod Waterfall
pub mod Evaluation
pub mod Adl
pub mod Funding
pub mod TpSl
pub mod Laws
mod Tests
mod LiquidationTests
mod AdlTests
mod FundingTests
mod TpSlTests
use novacex.Prelude.{ℕ}
use novacex.Prelude.Int.{ℤ}
use novacex.Ledger.{LedgerError}

pub data PositionSide : Type 0 where
  long short : PositionSide

pub data MarginMode : Type 0 where
  isolated cross : MarginMode

pub data PositionStatus : Type 0 where
  open_position closed liquidated : PositionStatus

-- `FuturesPositionEntity`, less its two times.
pub record Position : Type 0 where
  pub id : ℕ
  pub account : ℕ
  pub symbol : ℕ
  pub side : PositionSide
  pub quantity : ℤ
  pub entry_price : ℤ
  pub mark_price : ℤ
  pub liquidation_price : ℤ
  pub leverage : ℕ
  pub margin_mode : MarginMode
  pub initial_margin : ℤ
  pub maintenance_margin : ℤ
  pub realized_pnl : ℤ
  pub status : PositionStatus
  pub collateral_asset : ℕ
  pub maintenance_margin_rate : ℤ

pub data FuturesError : Type 0 where
  invalid_leverage : ℕ → FuturesError
  position_already_liquidated : ℕ → FuturesError
  -- a division by zero in decimal.ts
  division_by_zero : FuturesError
  position_not_found liquidation_not_authorized : ℕ → FuturesError
  invalid_mark_price mark_price_unavailable : ℕ → FuturesError
  -- the position, its equity and its maintenance margin
  liquidation_not_eligible : ℕ → ℤ → ℤ → FuturesError
  ledger_error : LedgerError → FuturesError
