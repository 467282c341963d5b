-- ===== src/Ledger.antt =====
-- server/src/services/ledger/ledger.service.ts with models/ledger.model.ts and errors.ts: the data
-- of the double-entry ledger and its database tables.
-- A UUID is the 128-bit number that it spells; an asset, a reference and a description are only
-- compared, and are numbers too. A wallet's amounts are the numbers that the decimal strings in its
-- row stand for.
pub mod Wallets
pub mod Totals
pub mod Post
pub mod Service
pub mod Laws
mod Tests
pub use novacex.Prelude.Result.{Result, err, ok, ◌>>=◌, >>=_passed, Result-cases}
use novacex.Prelude.{ℕ, ◌≡◌, refl, ◌⊎◌, inl, inr, Bool, true, false, Option, none, some, List}
use novacex.Prelude.Int.{ℤ}
use novacex.Decimal.{Text}

pub data TxType : Type 0 where
  deposit withdrawal withdrawal_settle withdrawal_fee internal_transfer spot_order_lock : TxType
  spot_order_unlock spot_trade_settle futures_margin_lock futures_margin_release : TxType
  futures_pnl_realized futures_funding_payment futures_liquidation trading_fee adjustment : TxType

unfoldable pub TxType-discrete : Discrete TxType
TxType-discrete = hlevel

-- `EXTERNAL_BOUNDARY_TX_TYPES.has`
unfoldable pub is_external_boundary : TxType → Bool
is_external_boundary deposit = true
is_external_boundary withdrawal = true
is_external_boundary withdrawal_settle = true
is_external_boundary _ = false

pub data Direction : Type 0 where
  credit debit : Direction

pub data Pool : Type 0 where
  available locked : Pool

-- `LedgerEntryInput`; the pool may be left out.
pub record EntryInput : Type 0 where
  pub account : ℕ
  pub asset : ℕ
  pub direction : Direction
  pub amount : Text
  pub balance_pool : Option Pool

-- `PostTransactionInput`; the metadata is stored and never read.
pub record PostInput : Type 0 where
  pub account : ℕ
  pub transaction_type : TxType
  pub reference : ℕ
  pub description : ℕ
  pub entries : List EntryInput

-- An entry whose amount has been validated and read.
pub record Entry : Type 0 where
  pub account : ℕ
  pub asset : ℕ
  pub direction : Direction
  pub amount : ℤ
  pub pool : Pool

-- A row of wallet_balances.
pub record Wallet : Type 0 where
  pub account : ℕ
  pub asset : ℕ
  pub available : ℤ
  pub locked : ℤ

-- A row of ledger_transactions.
pub record LedgerTransaction : Type 0 where
  pub id : ℕ
  pub account : ℕ
  pub transaction_type : TxType
  pub reference : ℕ
  pub description : ℕ

-- A row of ledger_entries.
pub record LedgerEntry : Type 0 where
  pub transaction_id : ℕ
  pub account : ℕ
  pub asset : ℕ
  pub direction : Direction
  pub amount : ℤ
  pub balance_after : ℤ

pub record Db : Type 0 where
  pub wallets : List Wallet
  pub transactions : List LedgerTransaction
  pub entries : List LedgerEntry

-- An element of `LedgerTransactionResult.entries`.
pub record ResultEntry : Type 0 where
  pub direction : Direction
  pub asset : ℕ
  pub amount : ℤ
  pub balance_after : ℤ

-- `LedgerTransactionResult`, less `createdAt`: a replay does not read that column and answers with the
-- current time.
pub record TransactionResult : Type 0 where
  pub transaction_id : ℕ
  pub account : ℕ
  pub transaction_type : TxType
  pub reference : ℕ
  pub entries : List ResultEntry

pub data LedgerError : Type 0 where
  transaction_failed : LedgerError
  invalid_amount : Text → LedgerError
  unbalanced_transaction : ℤ → ℤ → LedgerError
  reference_conflict : ℕ → LedgerError
  insufficient_balance : Pool → ℕ → ℤ → ℤ → LedgerError
  -- a TypeError on a key that the map of wallets lacks
  missing_wallet : LedgerError
