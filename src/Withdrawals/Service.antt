-- ===== src/Withdrawals/Service.antt =====
-- `WithdrawalService` (withdrawal.service.ts): the request, the review by an administrator and the
-- ends of a withdrawal. Each method runs in one database transaction, so a throw leaves the tables
-- as they were. Events and the audit log are not modelled.
use novacex.Prelude.{
  ℕ, zero, suc, leb, Bool, true, false, not, ◌&&◌, ◌||◌, Option, none, some, List, [], ◌∷◌, ◌++◌,
  ◌==◌, if◌then◌else◌,
}
use novacex.Prelude.Int.{ℤ, pos, ◌+ℤ◌, ltb_ℤ}
use novacex.Prelude.Result.{Result, err, ok, ◌>>=◌}
use novacex.Decimal.{Text, to_big_int}
use novacex.Decimal.Ops.{validate_amount}
use novacex.Ledger.{withdrawal}
use novacex.Ledger.Post.{post_transaction}
use novacex.Withdrawals.{
  pending, Reason, Withdrawal, FundingAccount, AssetNetwork, Store, WithdrawalError, invalid_amount,
  user_not_found, account_not_found, unsupported_asset_network, network_inactive, missing_memo,
  below_minimum, posted_in,
}
use novacex.Withdrawals.Policy.{find_user, evaluate, initial_status, validate_withdrawal_compliance}
use novacex.Withdrawals.Funds.{reservation_reference, describe, post_of, reserve_entries}

-- `CryptoWithdrawDto`
pub record CryptoWithdraw : Type 0 where
  pub user : ℕ
  pub asset : ℕ
  pub network : ℕ
  pub amount : Text
  pub destination_address : ℕ
  pub destination_memo : Option ℕ
  pub reference : ℕ

-- `SELECT id, type FROM accounts WHERE user_id = $1 AND type = 'FUNDING'`
unfoldable pub funding_account : ℕ → List FundingAccount → Option FundingAccount
funding_account user [] = none
funding_account user (a ∷ rest) =
    if a.user == user && a.is_funding then some a else funding_account user rest

unfoldable pub find_network : ℕ → ℕ → List AssetNetwork → Option AssetNetwork
find_network asset network [] = none
find_network asset network (n ∷ ns) =
    if n.asset == asset && n.network == network then some n else find_network asset network ns

abbrev pub is_some {ℓ} : {A : Type ℓ} → Option A → Bool
is_some none = false
is_some (some a) = true

abbrev pub or_throw {ℓ} : {A : Type ℓ} → WithdrawalError → Option A → Result WithdrawalError A
or_throw e none = err e
or_throw e (some a) = ok a

abbrev pub require : Bool → WithdrawalError → Result WithdrawalError (Unit {0})
require test e = if test then ok tt else err e

-- The amount that `validateAmount` lets through, as a number.
unfoldable pub requested_amount : Text → Result WithdrawalError ℤ
requested_amount t = do
  valid ← require (validate_amount t) invalid_amount
  or_throw invalid_amount (to_big_int t)

-- Whether the digit at that place is five or more.
unfoldable pub from_five : ℕ → Text → Bool
from_five n [] = false
from_five zero (c ∷ s) = leb b'5' c && leb c b'9'
from_five (suc n) (c ∷ s) = from_five n s

-- The text after the point.
unfoldable pub fraction : Text → Text
fraction [] = []
fraction (c ∷ s) = if c == b'.' then s else fraction s

-- The column `amount NUMERIC(36,18)` rounds the text that is inserted at its eighteenth decimal, where
-- the ledger's arithmetic cuts the rest off: what the column has more, of an amount above zero.
unfoldable pub excess_of : Text → ℤ
unfolding from_five fraction
excess_of t = if from_five 18 (fraction t) then pos 1 else pos 0

abbrev pub new_withdrawal :
    ℕ → ℕ → CryptoWithdraw → FundingAccount → AssetNetwork → ℤ → List Reason → ℕ → Withdrawal
new_withdrawal id now dto account net amount reasons tx = record {
  id = id;
  account = account.id;
  asset = dto.asset;
  network = dto.network;
  amount = amount +ℤ excess_of dto.amount;
  fee = net.withdrawal_fee;
  status = pending;
  crypto_status = initial_status reasons;
  destination_address = dto.destination_address;
  destination_memo = dto.destination_memo;
  ledger_tx_id = tx;
  provider_id = none;
  provider_withdrawal_id = none;
  tx_hash = none;
  network_nonce = none;
  failure_reason = none;
  review_reason = reasons;
  reviewed_by = none;
  confirmed_by = none;
  created_at = now;
  updated_at = now;
}

-- What `cryptoWithdraw` finds out before it moves anything: the account, the network, the amount
-- and the reasons for a review. `used` is the total of the last 24 hours.
unfoldable pub check_request :
    Option ℤ
    → ℤ
    → CryptoWithdraw
    → Store
    → Result WithdrawalError (FundingAccount × AssetNetwork × ℤ × List Reason)
check_request threshold used dto x = do
  amount ← requested_amount dto.amount
  user ← or_throw user_not_found (find_user dto.user x.users)
  account ← or_throw account_not_found (funding_account dto.user x.accounts)
  net ← or_throw unsupported_asset_network (find_network dto.asset dto.network x.networks)
  active ← require net.is_active network_inactive
  memo ← require (not net.requires_memo || is_some dto.destination_memo) missing_memo
  least ← require (not (ltb_ℤ amount net.min_withdrawal)) below_minimum
  reasons ← evaluate threshold dto.user dto.asset dto.network amount dto.destination_address x
  allowed ← validate_withdrawal_compliance used dto.user amount dto.destination_address x
  ok (account, net, amount, reasons)

-- The reservation.
unfoldable pub reserve_funds :
    ℕ → CryptoWithdraw → ℕ → ℤ → Store → Result WithdrawalError (ℕ × Store)
reserve_funds id dto account total x = posted_in x (
    post_transaction id
      (post_of account withdrawal (reservation_reference dto.reference) (describe 0 dto.asset)
        (reserve_entries account dto.asset total))
      x.db)

abbrev pub insert : Withdrawal → Store → Store
insert w x = record x { withdrawals = x.withdrawals ++ w ∷ [] }

-- `cryptoWithdraw`; `fresh` gives the UUIDs of the ledger transaction and of the withdrawal.
unfoldable pub crypto_withdraw :
    (ℕ → ℕ)
    → ℕ
    → Option ℤ
    → ℤ
    → CryptoWithdraw
    → Store
    → Result WithdrawalError (Withdrawal × Store)
crypto_withdraw fresh now threshold used dto x = do
  (account, net, amount, reasons) ← check_request threshold used dto x
  (tx, y) ← reserve_funds (fresh 0) dto account.id (amount +ℤ net.withdrawal_fee) x
  (let w = new_withdrawal (fresh 1) now dto account net amount reasons tx in ok (w, insert w y))
