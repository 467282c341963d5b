-- ===== src/Withdrawals.antt =====
-- server/src/services/wallet/withdrawal.service.ts and withdrawal-policy.service.ts with
-- services/compliance/aml.service.ts and the two withdrawal workers: crypto withdrawals, from the
-- request over the review to the settlement in the ledger.
-- Identifiers, addresses, networks and free texts are numbers, since they are only compared; a
-- transaction hash is a text, since its form is tested. A time is a number.
pub mod Policy
pub mod Funds
pub mod Service
pub mod Review
pub mod Queue
pub mod Operations
pub mod Laws
mod Tests
use novacex.Prelude.{ℕ, Bool, Option, List}
use novacex.Prelude.Int.{ℤ}
use novacex.Decimal.{Text}
use novacex.Ledger.{LedgerError, TransactionResult, Db, Result, ok, err}

pub data TransferStatus : Type 0 where
  pending completed failed rejected : TransferStatus

-- The column crypto_status. (PENDING, COMPLETED, FAILED and REJECTED are among its values too.)
pub data CryptoStatus : Type 0 where
  crypto_pending reserved pending_review approved submitting signing submitted : CryptoStatus
  broadcast confirming confirmed ready_for_manual_execution unknown : CryptoStatus
  crypto_completed crypto_failed crypto_rejected reversed cancelled : CryptoStatus

-- What `reasons` and the reviewer write into review_reason.
pub data Reason : Type 0 where
  threshold_not_configured high_value first_time_destination : Reason
  note : ℕ → Reason

pub data FailureReason : Type 0 where
  rejected_by_administrator resolved_as_failed custody_rejection : FailureReason

-- A row of withdrawals.
pub record Withdrawal : Type 0 where
  pub id : ℕ
  pub account : ℕ
  pub asset : ℕ
  pub network : ℕ
  pub amount : ℤ
  pub fee : ℤ
  pub status : TransferStatus
  pub crypto_status : CryptoStatus
  pub destination_address : ℕ
  pub destination_memo : Option ℕ
  pub ledger_tx_id : ℕ
  pub provider_id : Option ℕ
  pub provider_withdrawal_id : Option Text
  pub tx_hash : Option Text
  pub network_nonce : Option ℕ
  pub failure_reason : Option FailureReason
  pub review_reason : List Reason
  pub reviewed_by : Option ℕ
  pub confirmed_by : Option ℕ
  pub created_at : ℕ
  pub updated_at : ℕ

-- A row of users.
pub record User : Type 0 where
  pub id : ℕ
  pub is_active : Bool

-- A row of accounts.
pub record FundingAccount : Type 0 where
  pub id : ℕ
  pub user : ℕ
  pub is_funding : Bool

-- A row of asset_networks.
pub record AssetNetwork : Type 0 where
  pub asset : ℕ
  pub network : ℕ
  pub is_active : Bool
  pub min_withdrawal : ℤ
  pub withdrawal_fee : ℤ
  pub requires_memo : Bool

pub data KycTier : Type 0 where
  tier_0 tier_1 tier_2 : KycTier

-- A row of user_kyc_profiles.
pub record KycProfile : Type 0 where
  pub user : ℕ
  pub tier : KycTier
  pub is_verified : Bool

-- The tables that withdrawals read or write.
pub record Store : Type 0 where
  pub db : Db
  pub withdrawals : List Withdrawal
  pub users : List User
  pub accounts : List FundingAccount
  pub networks : List AssetNetwork
  pub sanctioned_addresses : List ℕ
  pub profiles : List KycProfile

pub data WithdrawalError : Type 0 where
  invalid_amount user_not_found account_not_found : WithdrawalError
  unsupported_asset_network network_inactive missing_memo below_minimum : WithdrawalError
  forbidden_account_status sanctioned_address_detected : WithdrawalError
  kyc_verification_required kyc_daily_limit_exceeded : WithdrawalError
  withdrawal_not_found invalid_state forbidden_self_action : WithdrawalError
  invalid_tx_hash duplicate_tx_hash sender_not_configured : WithdrawalError
  onchain_verification_failed resolution_evidence_insufficient : WithdrawalError
  ledger_error : LedgerError → WithdrawalError

-- A call of the ledger inside the transaction.
abbrev pub posted_in :
    Store → Result LedgerError TransactionResult × Db → Result WithdrawalError (ℕ × Store)
posted_in x (err e, db) = err (ledger_error e)
posted_in x (ok r, db) = ok (r.transaction_id, record x { db = db })
