-- ===== src/Withdrawals/Review.antt =====
-- `WithdrawalService` (withdrawal.service.ts): the review by an administrator, the confirmation of a
-- manual execution, and the ways in which a withdrawal ends.
use novacex.Prelude.{
  ℕ, Bool, true, false, not, ◌&&◌, ◌||◌, Option, none, some, List, [], ◌∷◌, ◌==◌, leb,
  if◌then◌else◌, length,
}
use novacex.Prelude.Result.{Result, ok, ◌>>=◌}
use novacex.Decimal.{Text, is_digit}
use novacex.Decimal.Ops.{text_eq}
use novacex.Withdrawals.{
  TransferStatus, pending, failed, rejected, CryptoStatus, crypto_pending, reserved, pending_review,
  approved, submitted, confirmed, ready_for_manual_execution, unknown, crypto_completed,
  crypto_failed, cancelled, Reason, note, FailureReason, rejected_by_administrator,
  resolved_as_failed, Withdrawal, Store, WithdrawalError, withdrawal_not_found, invalid_state,
  forbidden_self_action, invalid_tx_hash, duplicate_tx_hash, sender_not_configured,
  onchain_verification_failed, resolution_evidence_insufficient,
}
use novacex.Withdrawals.Policy.{is_owned_by}
use novacex.Withdrawals.Funds.{
  release_reference, cancel_reference, resolve_reference, find_withdrawal, write, closed_as,
  release_funds, settle_completed_withdrawal,
}
use novacex.Withdrawals.Service.{or_throw, require}

abbrev pub is_pending : TransferStatus → Bool
is_pending pending = true
is_pending _ = false

abbrev pub awaits_approval : CryptoStatus → Bool
awaits_approval crypto_pending = true
awaits_approval reserved = true
awaits_approval _ = false

abbrev pub awaits_review : CryptoStatus → Bool
awaits_review pending_review = true
awaits_review _ = false

abbrev pub awaits_execution : CryptoStatus → Bool
awaits_execution ready_for_manual_execution = true
awaits_execution _ = false

abbrev pub is_unknown : CryptoStatus → Bool
is_unknown unknown = true
is_unknown _ = false

abbrev pub is_cancellable : CryptoStatus → Bool
is_cancellable crypto_pending = true
is_cancellable reserved = true
is_cancellable approved = true
is_cancellable ready_for_manual_execution = true
is_cancellable _ = false

abbrev pub set_crypto : CryptoStatus → ℕ → Withdrawal → Withdrawal
set_crypto s now w = record w { crypto_status = s; updated_at = now }

-- `approveWithdrawal`
unfoldable pub approve_withdrawal : ℕ → ℕ → Store → Result WithdrawalError Store
unfolding write
approve_withdrawal now id x = do
  w ← or_throw withdrawal_not_found (find_withdrawal id x.withdrawals)
  state ← require (is_pending w.status && awaits_approval w.crypto_status) invalid_state
  ok (write id (set_crypto approved now) x)

-- The row, joined with its owner, who may not be the administrator.
unfoldable pub reviewed_by_other :
    ℕ → ℕ → (CryptoStatus → Bool) → Store → Result WithdrawalError Withdrawal
unfolding is_owned_by
reviewed_by_other id admin awaits x = do
  w ← or_throw withdrawal_not_found (find_withdrawal id x.withdrawals)
  other ← require (not (is_owned_by admin w.account x.accounts)) forbidden_self_action
  state ← require (is_pending w.status && awaits w.crypto_status) invalid_state
  ok w

-- `COALESCE($2, review_reason)`
abbrev pub coalesce : Option ℕ → List Reason → List Reason
coalesce none rs = rs
coalesce (some n) rs = note n ∷ []

-- `approveWithdrawalAdmin`
unfoldable pub approve_withdrawal_admin :
    ℕ → ℕ → ℕ → Option ℕ → Store → Result WithdrawalError Store
unfolding reviewed_by_other write
approve_withdrawal_admin now id admin reason x = do
  w ← reviewed_by_other id admin awaits_review x
  ok (
      write id
        (λ row. record (set_crypto approved now row) {
          reviewed_by = some admin;
          review_reason = coalesce reason row.review_reason;
        })
        x)

-- `rejectWithdrawalAdmin`; `tx` is the UUID of the ledger transaction.
unfoldable pub reject_withdrawal_admin : ℕ → ℕ → ℕ → ℕ → ℕ → Store → Result WithdrawalError Store
unfolding reviewed_by_other write
reject_withdrawal_admin tx now id admin reason x = do
  w ← reviewed_by_other id admin awaits_review x
  (t, y) ← release_funds tx (release_reference w.id) 1 w x
  ok (
      write id
        (λ row. record (closed_as rejected cancelled now row) {
          review_reason = note reason ∷ [];
          reviewed_by = some admin;
          failure_reason = some rejected_by_administrator;
        })
        y)

-- `/^0x[0-9a-fA-F]{64}$/`
abbrev pub is_hex_digit : ℕ → Bool
is_hex_digit c = is_digit c || (leb b'a' c && leb c b'f') || (leb b'A' c && leb c b'F')

unfoldable pub all_hex : Text → Bool
all_hex [] = true
all_hex (c ∷ cs) = is_hex_digit c && all_hex cs

unfoldable pub is_tx_hash : Text → Bool
unfolding all_hex
is_tx_hash [] = false
is_tx_hash (a ∷ []) = false
is_tx_hash (a ∷ b ∷ cs) = a == b'0' && b == b'x' && all_hex cs && length cs == 64

abbrev pub is_live : CryptoStatus → Bool
is_live submitted = true
is_live confirmed = true
is_live crypto_completed = true
is_live _ = false

abbrev pub has_hash : Text → Option Text → Bool
has_hash h none = false
has_hash h (some t) = text_eq t h

-- `SELECT id FROM withdrawals WHERE tx_hash = $1 AND crypto_status IN (…) AND id <> $2`
unfoldable pub is_hash_used : Text → ℕ → List Withdrawal → Bool
is_hash_used h id [] = false
is_hash_used h id (w ∷ ws) =
    (has_hash h w.tx_hash && is_live w.crypto_status && not (w.id == id)) || is_hash_used h id ws

abbrev pub manually_submitted : ℕ → Text → ℕ → ℕ → Withdrawal → Withdrawal
manually_submitted provider h admin now w = record (set_crypto submitted now w) {
  tx_hash = some h;
  provider_withdrawal_id = some h;
  provider_id = some provider;
  confirmed_by = some admin;
}

-- `confirmManualWithdrawal`: whether a sender is configured, and the verification on the chain, are
-- arguments; `provider` is the number of the name manual_safe.
unfoldable pub confirm_manual_withdrawal :
    Bool → (Withdrawal → Text → Bool) → ℕ → ℕ → ℕ → Text → ℕ → Store → Result WithdrawalError Store
unfolding is_tx_hash reviewed_by_other is_hash_used write
confirm_manual_withdrawal configured verify provider now id h admin x = do
  form ← require (is_tx_hash h) invalid_tx_hash
  w ← reviewed_by_other id admin awaits_execution x
  once ← require (not (is_hash_used h id x.withdrawals)) duplicate_tx_hash
  sender ← require configured sender_not_configured
  seen ← require (verify w h) onchain_verification_failed
  ok (write id (manually_submitted provider h admin now) x)

-- `failWithdrawal`: a row that is missing or not PENDING is left alone.
unfoldable pub fail_withdrawal : ℕ → ℕ → ℕ → FailureReason → Store → Result WithdrawalError Store
unfolding write
fail_withdrawal tx now id reason x = elim (find_withdrawal id x.withdrawals) [
  | none ↦ ok x
  | some w ↦
      if is_pending w.status
      then (do
        (t, y) ← release_funds tx (release_reference w.id) 2 w x
        ok (
            write id
              (λ row. record (closed_as failed crypto_failed now row) {
                failure_reason = some reason;
              })
              y))
      else ok x
]

-- `completeWithdrawal`
unfoldable pub complete_withdrawal : (ℕ → ℕ) → ℕ → ℕ → Text → Store → Result WithdrawalError Store
complete_withdrawal fresh now id tx_hash x = elim (find_withdrawal id x.withdrawals) [
  | none ↦ ok x
  | some w ↦ if is_pending w.status then settle_completed_withdrawal fresh now tx_hash w x else ok x
]

-- What the custody provider says of a withdrawal.
pub data CustodyStatus : Type 0 where
  custody_pending custody_signing custody_broadcast custody_confirmed : CustodyStatus
  custody_failed custody_rejected custody_reversed custody_ready : CustodyStatus

-- What `getWithdrawalStatus` does: a status with a reference, no record, or another failure.
pub data CustodyAnswer : Type 0 where
  answered : CustodyStatus → Option Text → CustodyAnswer
  not_found unavailable : CustodyAnswer

pub record Evidence : Type 0 where
  pub non_broadcast : Bool
  pub is_confirmed : Bool
  pub evidence_hash : Option Text

abbrev pub was_not_broadcast : CustodyStatus → Bool
was_not_broadcast custody_broadcast = false
was_not_broadcast custody_confirmed = false
was_not_broadcast custody_ready = false
was_not_broadcast _ = true

abbrev pub was_confirmed : CustodyStatus → Bool
was_confirmed custody_confirmed = true
was_confirmed _ = false

abbrev evidence : Bool → Bool → Option Text → Evidence
evidence a b h = record { non_broadcast = a; is_confirmed = b; evidence_hash = h }

-- `queryWithdrawalEvidence`
unfoldable pub query_withdrawal_evidence : CustodyAnswer → Evidence
query_withdrawal_evidence (answered s h) = evidence (was_not_broadcast s) (was_confirmed s) h
query_withdrawal_evidence not_found = evidence true false none
query_withdrawal_evidence unavailable = evidence false false none

abbrev pub or_empty : Option Text → Text
or_empty none = []
or_empty (some t) = t

pub data Directive : Type 0 where
  as_failed as_completed : Directive

-- The two directives of `resolveWithdrawalAdmin`.
unfoldable pub resolve_as :
    (ℕ → ℕ) → ℕ → ℕ → Directive → Evidence → Withdrawal → Store → Result WithdrawalError Store
unfolding write
resolve_as fresh now id as_failed e w x = do
  enough ← require e.non_broadcast resolution_evidence_insufficient
  (t, y) ← release_funds (fresh 0) (resolve_reference w.id) 6 w x
  ok (
      write w.id
        (λ row. record (closed_as failed crypto_failed now row) {
          failure_reason = some resolved_as_failed;
        })
        y)
resolve_as fresh now id as_completed e w x = do
  enough ← require e.is_confirmed resolution_evidence_insufficient
  settle_completed_withdrawal fresh now (or_empty e.evidence_hash) w x

-- `resolveWithdrawalAdmin`; `ask` is the custody provider.
unfoldable pub resolve_withdrawal_admin :
    (ℕ → ℕ) → (ℕ → CustodyAnswer) → ℕ → ℕ → ℕ → Directive → Store → Result WithdrawalError Store
unfolding reviewed_by_other query_withdrawal_evidence resolve_as
resolve_withdrawal_admin fresh ask now id admin directive x = do
  w ← reviewed_by_other id admin is_unknown x
  resolve_as fresh now id directive (query_withdrawal_evidence (ask w.id)) w x

-- `cancelWithdrawal`
unfoldable pub cancel_withdrawal : ℕ → ℕ → ℕ → Store → Result WithdrawalError Store
unfolding write
cancel_withdrawal tx now id x = do
  w ← or_throw withdrawal_not_found (find_withdrawal id x.withdrawals)
  state ← require (is_pending w.status && is_cancellable w.crypto_status) invalid_state
  (t, y) ← release_funds tx (cancel_reference w.id) 3 w x
  ok (write id (closed_as rejected cancelled now) y)
