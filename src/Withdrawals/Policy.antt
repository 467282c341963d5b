-- ===== src/Withdrawals/Policy.antt =====
-- `WithdrawalPolicyService` (withdrawal-policy.service.ts) and `AmlService` (aml.service.ts).
use novacex.Prelude.{
  ℕ, ◌*◌, Bool, true, false, not, ◌&&◌, ◌||◌, Option, none, some, List, [], ◌∷◌, ◌++◌, ◌==◌,
  if◌then◌else◌,
}
use novacex.Prelude.Int.{ℤ, pos, ◌+ℤ◌, ltb_ℤ}
use novacex.Prelude.Result.{Result, err, ok}
use novacex.Decimal.{scale}
use novacex.Withdrawals.{
  TransferStatus, completed, CryptoStatus, approved, pending_review, Reason,
  threshold_not_configured, high_value, first_time_destination, Withdrawal, User, FundingAccount,
  KycTier, tier_0, tier_1, tier_2, KycProfile, Store, WithdrawalError, user_not_found,
  forbidden_account_status, sanctioned_address_detected, kyc_verification_required,
  kyc_daily_limit_exceeded,
}

-- `SELECT … FROM users WHERE id = $1`
unfoldable pub find_user : ℕ → List User → Option User
find_user id [] = none
find_user id (u ∷ us) = if u.id == id then some u else find_user id us

abbrev pub is_completed : TransferStatus → Bool
is_completed completed = true
is_completed _ = false

-- `JOIN accounts a ON w.account_id = a.id WHERE a.user_id = $1`
unfoldable pub is_owned_by : ℕ → ℕ → List FundingAccount → Bool
is_owned_by user account [] = false
is_owned_by user account (a ∷ as') =
    (a.id == account && a.user == user) || is_owned_by user account as'

-- `isFirstTimeDestination`
unfoldable pub is_first_time_destination :
    ℕ → ℕ → ℕ → ℕ → List FundingAccount → List Withdrawal → Bool
unfolding is_owned_by
is_first_time_destination user asset network address accounts [] = true
is_first_time_destination user asset network address accounts (w ∷ ws) =
    not (
      is_owned_by user w.account accounts
      && w.asset == asset
      && w.network == network
      && w.destination_address == address
      && is_completed w.status)
    && is_first_time_destination user asset network address accounts ws

-- `none` is a threshold that is not configured, or is no decimal number.
abbrev pub threshold_reasons : Option ℤ → ℤ → List Reason
threshold_reasons none amount = threshold_not_configured ∷ []
threshold_reasons (some threshold) amount = if ltb_ℤ threshold amount then high_value ∷ [] else []

-- `evaluate`: the reasons for a review; none of them means APPROVE.
unfoldable pub evaluate :
    Option ℤ → ℕ → ℕ → ℕ → ℤ → ℕ → Store → Result WithdrawalError (List Reason)
unfolding find_user is_first_time_destination
evaluate threshold user asset network amount address x = elim (find_user user x.users) [
  | none ↦ err user_not_found
  | some u ↦
      if u.is_active
      then ok (
          threshold_reasons threshold amount
          ++ (if is_first_time_destination user asset network address x.accounts x.withdrawals
              then first_time_destination ∷ []
              else []))
      else err forbidden_account_status
]

-- `initialCryptoStatus`
abbrev pub initial_status : List Reason → CryptoStatus
initial_status [] = approved
initial_status (r ∷ rs) = pending_review

-- `isAddressSanctioned`, on the active rows of sanctioned_addresses
unfoldable pub is_address_sanctioned : ℕ → List ℕ → Bool
is_address_sanctioned address [] = false
is_address_sanctioned address (a ∷ rest) = a == address || is_address_sanctioned address rest

-- `KYC_TIER_DAILY_LIMITS`
abbrev pub daily_limit : KycTier → ℤ
daily_limit tier_0 = pos 0
daily_limit tier_1 = pos (2000 * scale)
daily_limit tier_2 = pos (100000 * scale)

-- `kyc.getProfile`, and the tier that an account that is not verified has
unfoldable pub tier_of : ℕ → List KycProfile → KycTier
tier_of user [] = tier_0
tier_of user (p ∷ ps) =
    if p.user == user then (if p.is_verified then p.tier else tier_0) else tier_of user ps

abbrev pub is_tier_0 : KycTier → Bool
is_tier_0 tier_0 = true
is_tier_0 _ = false

-- `validateWithdrawalCompliance`. The total of the last 24 hours is an argument: the result of the
-- query of `get24HourWithdrawalTotal`.
unfoldable pub validate_withdrawal_compliance :
    ℤ → ℕ → ℤ → ℕ → Store → Result WithdrawalError (Unit {0})
unfolding is_address_sanctioned tier_of
validate_withdrawal_compliance used user amount address x =
    if is_address_sanctioned address x.sanctioned_addresses
    then err sanctioned_address_detected
    else (let tier = tier_of user x.profiles in
        if is_tier_0 tier
        then err kyc_verification_required
        else (if ltb_ℤ (daily_limit tier) (used +ℤ amount)
            then err kyc_daily_limit_exceeded
            else ok tt))
