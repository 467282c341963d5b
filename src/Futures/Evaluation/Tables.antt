-- ===== src/Futures/Evaluation/Tables.antt =====
-- The tables and the surroundings of a liquidation (liquidation.service.ts).
use novacex.Prelude.{ℕ, Option, none, some, List, [], ◌∷◌, ◌==◌, if◌then◌else◌}
use novacex.Prelude.Int.{ℤ, pos}
use novacex.Decimal.{Text}
use novacex.Ledger.{Wallet, Db}
use novacex.Ledger.Wallets.{find_wallet}
use novacex.Futures.{PositionSide, Position}

-- `FuturesLiquidationEntity`, less its time.
pub record Liquidation : Type 0 where
  pub id : ℕ
  pub position : ℕ
  pub account : ℕ
  pub symbol : ℕ
  pub side : PositionSide
  pub quantity : ℤ
  pub bankruptcy_price : ℤ
  pub liquidation_price : ℤ
  pub loss_amount : ℤ
  pub insurance_fund_delta : ℤ

pub data AdlStatus : Type 0 where
  pending partially_settled settled unresolved : AdlStatus

-- `FuturesAdlEventEntity`, less its time.
pub record AdlEvent : Type 0 where
  pub id : ℕ
  pub liquidation : ℕ
  pub counterparty_account : Option ℕ
  pub counterparty_position : Option ℕ
  pub symbol : ℕ
  pub side : PositionSide
  pub reduced_quantity : Option ℤ
  pub execution_price : Option ℤ
  pub status : AdlStatus
  pub target_deficit : ℤ
  pub resolved_deficit : ℤ

-- The tables that a liquidation reads or writes.
pub record FuturesStore : Type 0 where
  pub db : Db
  pub positions : List Position
  pub liquidations : List Liquidation
  pub adl_events : List AdlEvent

-- What comes from outside: the three fresh UUIDs, the price provider (none where it throws or gives
-- nothing), the last update of a position's row, and the text of the settlement as a number.
pub record Surroundings : Type 0 where
  pub liquidation_id : ℕ
  pub transaction_id : ℕ
  pub adl_event_id : ℕ
  pub mark_prices : ℕ → Option Text
  pub updated_at : ℕ → ℕ
  pub settlement_text : ℕ → PositionSide → ℤ → ℤ → ℕ

-- `SELECT * FROM futures_positions WHERE id = $1 FOR UPDATE`
unfoldable pub find_position : ℕ → List Position → Option Position
find_position id [] = none
find_position id (p ∷ ps) = if p.id == id then some p else find_position id ps

-- `UPDATE futures_positions SET … WHERE id = $8`
unfoldable pub update_position : ℕ → (Position → Position) → List Position → List Position
update_position id set [] = []
update_position id set (p ∷ ps) = (if p.id == id then set p else p) ∷ update_position id set ps

-- `available_balance` of a row of wallet_balances, zero where there is none.
abbrev pub available_in : ℕ → ℕ → List Wallet → ℤ
available_in account asset ws = elim (find_wallet (account, asset) ws) [
  | none ↦ pos 0
  | some w ↦ w.available
]
