-- ===== src/Withdrawals/Laws/Steps.antt =====
-- All operations on withdrawals (withdrawal.service.ts and the two workers) as steps of the abstract
-- machine.
use mathlib.Core.Path.{subst}
use novacex.Prelude.{
  ℕ, ◌≡◌, refl, inl, inr, Bool, true, false, not, ◌&&◌, Option, none, some, List, [], ◌∷◌,
  if◌then◌else◌, Bool-cases, Option-cases, take,
}
use novacex.Prelude.Result.{Result, err, ok, >>=_passed}
use novacex.Decimal.{Text}
use novacex.Withdrawals.{
  approved, ready_for_manual_execution, broadcast, signing, CryptoStatus, custody_rejection,
  Withdrawal, Store, WithdrawalError, invalid_state, withdrawal_not_found, invalid_tx_hash,
  duplicate_tx_hash, sender_not_configured, onchain_verification_failed,
}
use novacex.Withdrawals.Funds.{find_withdrawal, write}
use novacex.Prelude.Int.{ℤ, pos}
use novacex.Withdrawals.Service.{excess_of, require, or_throw, crypto_withdraw}
use novacex.Withdrawals.Review.{
  is_pending, awaits_approval, awaits_review, awaits_execution, set_crypto, reviewed_by_other,
  approve_withdrawal, approve_withdrawal_admin, is_tx_hash, is_hash_used, confirm_manual_withdrawal,
  CustodyStatus, custody_pending, custody_signing, custody_broadcast, custody_confirmed,
  custody_failed, custody_rejected, custody_reversed, custody_ready, complete_withdrawal,
  fail_withdrawal, or_empty,
}
use novacex.Withdrawals.Queue.{
  is_submitting, is_any, submit_all, sort_by, select, claim, claim_approved_withdrawals,
  claim_stuck_withdrawals, mark_as_submitted, mark_ready_for_manual_execution, update_crypto_status,
  failure_status, update_if, handle_processing_failure, Submission, manual, provided, no_reference,
  thrown, process_withdrawal, logged, track_status,
}
use novacex.Withdrawals.Operations.{
  Operation, request, approve, approve_admin, reject_admin, confirm_manual, fail, complete, resolve,
  cancel, claim_approved, claim_stuck, process, track, perform,
}
use novacex.Withdrawals.Laws.Closing.{ok_store}
use novacex.Withdrawals.Laws.Changes.{
  SameTerms, same_terms, SameRows, Change, quiet, Change-refl, write-Change,
}
use novacex.Withdrawals.Laws.Ends.{
  IsOpen, reject-Change, cancel-Change, fail-Change, complete-Change, resolve-Change,
}
use novacex.Withdrawals.Laws.Requests.{IsSound, IsNew, request-Change}

SameRows-submit_all :
    (now : ℕ) (chosen ws : List Withdrawal) → SameRows ws (submit_all now chosen ws)
unfolding submit_all
SameRows-submit_all now chosen [] = tt
SameRows-submit_all now chosen (w ∷ ws) = elim (Bool-cases (is_any w.id chosen)) [
  | inl here ↦ rw here (same_terms w, SameRows-submit_all now chosen ws)
  | inr other ↦ rw other (same_terms w, SameRows-submit_all now chosen ws)
]

claim-Change :
    {d : ℤ} (test : Withdrawal → Bool) (time : Withdrawal → ℕ) (now limit : ℕ) (x : Store)
    → Change d x (claim test time now limit x).1
unfolding claim
claim-Change test time now limit x =
    quiet refl refl (
      SameRows-submit_all now (take limit (sort_by time (select test x.withdrawals))) x.withdrawals)

update-Change :
    {d : ℤ} (now id : ℕ) (s : CryptoStatus) (x : Store)
    → Change d x (update_crypto_status now id s x)
unfolding update_crypto_status
update-Change now id s x = write-Change id (set_crypto s now) x same_terms

update_if-Change :
    {d : ℤ} (now id : ℕ) (s : Option CryptoStatus) (x : Store) → Change d x (update_if now id s x)
update_if-Change now id none x = Change-refl x
update_if-Change now id (some s) x = update-Change now id s x

failure-Change :
    {d : ℤ} (ambiguous : Bool) (now id : ℕ) (x : Store)
    → Change d x (handle_processing_failure ambiguous now id x)
unfolding handle_processing_failure
failure-Change ambiguous now id x = elim (Option-cases (find_withdrawal id x.withdrawals)) [
  | inl missing ↦ rw (missing, handle_processing_failure) (Change-refl x)
  | inr (w, found) ↦
      rw (found, handle_processing_failure)
        (update_if-Change now id (failure_status ambiguous w.crypto_status w.network_nonce) x)
]

ready_row :
    (now : ℕ) (w : Withdrawal)
    → SameTerms w (
        if is_pending w.status && is_submitting w.crypto_status
        then set_crypto ready_for_manual_execution now w
        else w)
ready_row now w = elim (Bool-cases (is_pending w.status && is_submitting w.crypto_status)) [
  | inl e ↦ rw e (same_terms w)
  | inr e ↦ rw e (same_terms w)
]

process-Change :
    {d : ℤ} (now id : ℕ) (s : Submission) (x : Store) → Change d x (process_withdrawal now id s x)
unfolding process_withdrawal mark_as_submitted mark_ready_for_manual_execution
process-Change now id (manual true) x = write-Change id _ x (ready_row now)
process-Change now id (manual false) x = failure-Change false now id x
process-Change now id (provided p r) x = write-Change id _ x same_terms
process-Change now id no_reference x = failure-Change false now id x
process-Change now id (thrown ambiguous) x = failure-Change ambiguous now id x

-- A write of other columns that an operation returns.
wrote :
    {d : ℤ} (id : ℕ) (f : Withdrawal → Withdrawal) (x : Store) {z : Store}
    → ((w : Withdrawal) → SameTerms w (f w))
    → ◌≡◌ {A = Result WithdrawalError Store} (ok (write id f x)) (ok z)
    → Change d x z
wrote id f x same last = subst (Change _ x) (ok_store last) (write-Change id f x same)

approve-Change :
    {d : ℤ} (now id : ℕ) (x : Store) {z : Store} → approve_withdrawal now id x ≡ ok z → Change d x z
unfolding approve_withdrawal
approve-Change now id x h =
    let (w, row, rest) =
      >>=_passed (or_throw withdrawal_not_found (find_withdrawal id x.withdrawals)) _ h in
    let (_, state, last) =
      >>=_passed (require (is_pending w.status && awaits_approval w.crypto_status) invalid_state) _
        rest in
    wrote id (set_crypto approved now) x same_terms last

approve_admin-Change :
    {d : ℤ} (now id admin : ℕ) (reason : Option ℕ) (x : Store) {z : Store}
    → approve_withdrawal_admin now id admin reason x ≡ ok z
    → Change d x z
unfolding approve_withdrawal_admin
approve_admin-Change now id admin reason x h =
    let (w, reviewed, last) = >>=_passed (reviewed_by_other id admin awaits_review x) _ h in
    wrote id _ x same_terms last

confirm-Change :
    {d : ℤ} (configured : Bool) (verify : Withdrawal → Text → Bool) (provider now id : ℕ)
    (hash : Text) (admin : ℕ) (x : Store) {z : Store}
    → confirm_manual_withdrawal configured verify provider now id hash admin x ≡ ok z
    → Change d x z
unfolding confirm_manual_withdrawal
confirm-Change configured verify provider now id hash admin x h =
    let (_, form, h1) = >>=_passed (require (is_tx_hash hash) invalid_tx_hash) _ h in
    let (w, reviewed, h2) = >>=_passed (reviewed_by_other id admin awaits_execution x) _ h1 in
    let (_, once, h3) =
      >>=_passed (require (not (is_hash_used hash id x.withdrawals)) duplicate_tx_hash) _ h2 in
    let (_, sender, h4) = >>=_passed (require configured sender_not_configured) _ h3 in
    let (_, seen, last) = >>=_passed (require (verify w hash) onchain_verification_failed) _ h4 in
    wrote id _ x same_terms last

module _ (x : Store) {d : ℤ} (open_rows : IsOpen x) where
  logged-Change :
      (m : Result WithdrawalError Store)
      → ((z : Store) → m ≡ ok z → Change d x z)
      → Change d x (logged x m)
  logged-Change (err e) step = Change-refl x
  logged-Change (ok z) step = step z refl

  failed-Change :
      (tx now id : ℕ) → Change d x (logged x (fail_withdrawal tx now id custody_rejection x))
  failed-Change tx now id =
      logged-Change (fail_withdrawal tx now id custody_rejection x)
        (λ z done. fail-Change x open_rows tx now id custody_rejection done)

  track-Change :
      (fresh : ℕ → ℕ) (now id : ℕ) (s : CryptoStatus) (c : CustodyStatus) (h : Option Text)
      → Change d x (track_status fresh now id s c h x)
  unfolding track_status
  track-Change fresh now id s custody_confirmed h =
      logged-Change (complete_withdrawal fresh now id (or_empty h) x)
        (λ z done. complete-Change x open_rows fresh now id (or_empty h) done)
  track-Change fresh now id s custody_failed h = failed-Change (fresh 0) now id
  track-Change fresh now id s custody_rejected h = failed-Change (fresh 0) now id
  track-Change fresh now id s custody_reversed h = failed-Change (fresh 0) now id
  track-Change fresh now id broadcast custody_broadcast h = Change-refl x
  track-Change fresh now id s custody_broadcast h = update-Change now id broadcast x
  track-Change fresh now id signing custody_signing h = Change-refl x
  track-Change fresh now id s custody_signing h = update-Change now id signing x
  track-Change fresh now id s custody_pending h = Change-refl x
  track-Change fresh now id s custody_ready h = Change-refl x

-- By how much the amount that a request stores exceeds the one that it reserves: one unit of 10^-18
-- where the text has more than eighteen decimals and rounds up.
abbrev pub excess : Operation → ℤ
excess (request fresh now threshold used dto) = excess_of dto.amount
excess _ = pos 0

-- Every operation on sound tables is a step of the abstract machine: it moves no money and leaves the
-- terms of every row; or it takes the reservation of one pending row out of the locked balance and
-- then ends that row; or it adds a pending row and its reservation. What that row stores for amount
-- and fee is what is reserved, but for one unit of 10^-18 more where the amount has further decimals
-- that round up. (A request comes under a new reference and draws fresh UUIDs.)
pub perform-Change :
    (o : Operation) (x z : Store)
    → IsSound x
    → IsNew o x
    → perform o x ≡ ok z
    → Change (excess o) x z
unfolding perform claim_approved_withdrawals claim_stuck_withdrawals
perform-Change (request fresh now threshold used dto) x z sound new_ref h =
    let (r, done, last) = >>=_passed (crypto_withdraw fresh now threshold used dto x) _ h in
    subst (Change _ x) (ok_store last)
      (request-Change fresh now threshold used dto x sound new_ref done)
perform-Change (approve now id) x z sound new_ref h = approve-Change now id x h
perform-Change (approve_admin now id admin reason) x z sound new_ref h =
    approve_admin-Change now id admin reason x h
perform-Change (reject_admin tx now id admin reason) x z sound new_ref h =
    reject-Change x sound.open_rows tx now id admin reason h
perform-Change (confirm_manual c v p now id hash admin) x z sound new_ref h =
    confirm-Change c v p now id hash admin x h
perform-Change (fail tx now id reason) x z sound new_ref h =
    fail-Change x sound.open_rows tx now id reason h
perform-Change (complete fresh now id hash) x z sound new_ref h =
    complete-Change x sound.open_rows fresh now id hash h
perform-Change (resolve fresh ask now id admin d) x z sound new_ref h =
    resolve-Change x sound.open_rows fresh ask now id admin d h
perform-Change (cancel tx now id) x z sound new_ref h = cancel-Change x sound.open_rows tx now id h
perform-Change (claim_approved now limit) x z sound new_ref h =
    subst (Change _ x) (ok_store h) (claim-Change _ _ now limit x)
perform-Change (claim_stuck now limit older_than) x z sound new_ref h =
    subst (Change _ x) (ok_store h) (claim-Change _ _ now limit x)
perform-Change (process now id s) x z sound new_ref h =
    subst (Change _ x) (ok_store h) (process-Change now id s x)
perform-Change (track fresh now id s c t) x z sound new_ref h =
    subst (Change _ x) (ok_store h) (track-Change x sound.open_rows fresh now id s c t)
