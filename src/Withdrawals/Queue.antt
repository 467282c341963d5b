-- ===== src/Withdrawals/Queue.antt =====
-- The claims of `WithdrawalService` (withdrawal.service.ts) and the two workers,
-- WithdrawalProcessingWorker.ts and WithdrawalStatusWorker.ts, on one withdrawal at a time.
use novacex.Prelude.{
  ℕ, ◌+◌, Bool, true, false, ◌&&◌, ◌||◌, Option, none, some, List, [], ◌∷◌, ◌==◌, ltb, leb,
  if◌then◌else◌, take, map,
}
use novacex.Prelude.Result.{Result, err, ok}
use novacex.Decimal.{Text}
use novacex.Withdrawals.{
  CryptoStatus, approved, submitting, signing, submitted, broadcast, confirmed,
  ready_for_manual_execution, unknown, custody_rejection, Withdrawal, Store, WithdrawalError,
}
use novacex.Withdrawals.Funds.{find_withdrawal, write}
use novacex.Withdrawals.Review.{
  is_pending, set_crypto, complete_withdrawal, fail_withdrawal, CustodyStatus, custody_pending,
  custody_signing, custody_broadcast, custody_confirmed, custody_failed, custody_rejected,
  custody_reversed, custody_ready, or_empty,
}

abbrev pub is_approved : CryptoStatus → Bool
is_approved approved = true
is_approved _ = false

abbrev pub may_be_stuck : CryptoStatus → Bool
may_be_stuck signing = true
may_be_stuck unknown = true
may_be_stuck submitting = true
may_be_stuck _ = false

-- `ORDER BY … ASC`, stable
unfoldable pub insert_by : (Withdrawal → ℕ) → Withdrawal → List Withdrawal → List Withdrawal
insert_by time w [] = w ∷ []
insert_by time w (v ∷ vs) = if leb (time w) (time v) then w ∷ v ∷ vs else v ∷ insert_by time w vs

unfoldable pub sort_by : (Withdrawal → ℕ) → List Withdrawal → List Withdrawal
unfolding insert_by
sort_by time [] = []
sort_by time (w ∷ ws) = insert_by time w (sort_by time ws)

unfoldable pub select : (Withdrawal → Bool) → List Withdrawal → List Withdrawal
select test [] = []
select test (w ∷ ws) = let rest = select test ws in if test w then w ∷ rest else rest

-- `id = ANY($1)`
unfoldable pub is_any : ℕ → List Withdrawal → Bool
is_any id [] = false
is_any id (w ∷ ws) = w.id == id || is_any id ws

-- `UPDATE withdrawals SET crypto_status = 'SUBMITTING', updated_at = NOW() WHERE id = ANY($1)`
unfoldable pub submit_all : ℕ → List Withdrawal → List Withdrawal → List Withdrawal
unfolding is_any
submit_all now chosen [] = []
submit_all now chosen (w ∷ ws) =
    (if is_any w.id chosen then set_crypto submitting now w else w) ∷ submit_all now chosen ws

abbrev pub claimed : Withdrawal → Withdrawal
claimed w = record w { crypto_status = submitting }

-- A claim; nobody else holds a lock on the rows.
unfoldable pub claim :
    (Withdrawal → Bool) → (Withdrawal → ℕ) → ℕ → ℕ → Store → List Withdrawal × Store
unfolding sort_by select submit_all
claim test time now limit x =
    let chosen = take limit (sort_by time (select test x.withdrawals)) in
    (
      map (λ (w : Withdrawal). claimed w) chosen,
      record x { withdrawals = submit_all now chosen x.withdrawals },
    )

-- `claimApprovedWithdrawals`
unfoldable pub claim_approved_withdrawals : ℕ → ℕ → Store → List Withdrawal × Store
unfolding claim
claim_approved_withdrawals now limit =
    claim (λ w. is_pending w.status && is_approved w.crypto_status) (λ w. w.created_at) now limit

-- `claimStuckWithdrawals`, the age in the unit of the times
unfoldable pub claim_stuck_withdrawals : ℕ → ℕ → ℕ → Store → List Withdrawal × Store
unfolding claim
claim_stuck_withdrawals now limit older_than =
    claim
      (λ w.
        is_pending w.status && may_be_stuck w.crypto_status && ltb (w.updated_at + older_than) now)
      (λ w. w.updated_at) now limit

-- `markAsSubmitted`
unfoldable pub mark_as_submitted : ℕ → ℕ → ℕ → Text → Store → Store
unfolding write
mark_as_submitted now id provider reference = write id λ w. record (set_crypto submitted now w) {
  provider_id = some provider;
  provider_withdrawal_id = some reference;
}

abbrev pub is_submitting : CryptoStatus → Bool
is_submitting submitting = true
is_submitting _ = false

-- `markReadyForManualExecution`
unfoldable pub mark_ready_for_manual_execution : ℕ → ℕ → Store → Store
unfolding write
mark_ready_for_manual_execution now id = write id λ w.
    if is_pending w.status && is_submitting w.crypto_status
    then set_crypto ready_for_manual_execution now w
    else w

-- `updateCryptoStatus`
unfoldable pub update_crypto_status : ℕ → ℕ → CryptoStatus → Store → Store
unfolding write
update_crypto_status now id s = write id (set_crypto s now)

abbrev pub is_custody_owned : CryptoStatus → Bool
is_custody_owned broadcast = true
is_custody_owned confirmed = true
is_custody_owned submitted = true
is_custody_owned _ = false

abbrev pub is_signing : CryptoStatus → Bool
is_signing signing = true
is_signing _ = false

-- `handleProcessingFailure` on the row that it has read again: the status it writes, if any.
-- `ambiguous` says whether the message looks like a timeout.
unfoldable pub failure_status : Bool → CryptoStatus → Option ℕ → Option CryptoStatus
failure_status ambiguous s nonce = if is_custody_owned s then none else elim nonce [
  | some n ↦ if is_signing s then none else some signing
  | none ↦ if is_signing s then some unknown else if ambiguous then some unknown else some approved
]

abbrev pub update_if : ℕ → ℕ → Option CryptoStatus → Store → Store
update_if now id none x = x
update_if now id (some s) x = update_crypto_status now id s x

-- A row that is not there counts as one with no status and no nonce; its update writes nothing.
unfoldable pub handle_processing_failure : Bool → ℕ → ℕ → Store → Store
unfolding failure_status update_crypto_status
handle_processing_failure ambiguous now id x = elim (find_withdrawal id x.withdrawals) [
  | none ↦ x
  | some w ↦ update_if now id (failure_status ambiguous w.crypto_status w.network_nonce) x
]

-- What the custody provider makes of a request: the manual mode says whether it is ready, another
-- provider may give a reference, and a request may fail.
pub data Submission : Type 0 where
  manual : Bool → Submission
  provided : ℕ → Text → Submission
  no_reference : Submission
  thrown : Bool → Submission

-- One round of the loop of WithdrawalProcessingWorker.
unfoldable pub process_withdrawal : ℕ → ℕ → Submission → Store → Store
unfolding handle_processing_failure mark_as_submitted mark_ready_for_manual_execution
process_withdrawal now id (manual true) x = mark_ready_for_manual_execution now id x
process_withdrawal now id (manual false) x = handle_processing_failure false now id x
process_withdrawal now id (provided p r) x = mark_as_submitted now id p r x
process_withdrawal now id no_reference x = handle_processing_failure false now id x
process_withdrawal now id (thrown ambiguous) x = handle_processing_failure ambiguous now id x

-- One round of the loop of WithdrawalStatusWorker, on the status that the batch was read with.
-- What an operation throws is logged.
abbrev pub logged : Store → Result WithdrawalError Store → Store
logged x (err e) = x
logged x (ok y) = y

unfoldable pub track_status :
    (ℕ → ℕ) → ℕ → ℕ → CryptoStatus → CustodyStatus → Option Text → Store → Store
unfolding update_crypto_status complete_withdrawal fail_withdrawal
track_status fresh now id s custody_confirmed h x =
    logged x (complete_withdrawal fresh now id (or_empty h) x)
track_status fresh now id s custody_failed h x =
    logged x (fail_withdrawal (fresh 0) now id custody_rejection x)
track_status fresh now id s custody_rejected h x =
    logged x (fail_withdrawal (fresh 0) now id custody_rejection x)
track_status fresh now id s custody_reversed h x =
    logged x (fail_withdrawal (fresh 0) now id custody_rejection x)
track_status fresh now id broadcast custody_broadcast h x = x
track_status fresh now id s custody_broadcast h x = update_crypto_status now id broadcast x
track_status fresh now id signing custody_signing h x = x
track_status fresh now id s custody_signing h x = update_crypto_status now id signing x
track_status fresh now id s custody_pending h x = x
track_status fresh now id s custody_ready h x = x
