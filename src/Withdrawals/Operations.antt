-- ===== src/Withdrawals/Operations.antt =====
-- The operations on withdrawals (withdrawal.service.ts and the two workers) as one type, for
-- statements about all of them.
use novacex.Prelude.{ℕ, Bool, Option}
use novacex.Prelude.Int.{ℤ}
use novacex.Prelude.Result.{Result, ok, ◌>>=◌}
use novacex.Decimal.{Text}
use novacex.Withdrawals.{CryptoStatus, FailureReason, Withdrawal, Store, WithdrawalError}
use novacex.Withdrawals.Service.{CryptoWithdraw, crypto_withdraw}
use novacex.Withdrawals.Review.{
  Directive, CustodyStatus, CustodyAnswer, approve_withdrawal, approve_withdrawal_admin,
  reject_withdrawal_admin, confirm_manual_withdrawal, fail_withdrawal, complete_withdrawal,
  resolve_withdrawal_admin, cancel_withdrawal,
}
use novacex.Withdrawals.Queue.{
  Submission, claim_approved_withdrawals, claim_stuck_withdrawals, process_withdrawal, track_status,
}

pub data Operation : Type 0 where
  request : (ℕ → ℕ) → ℕ → Option ℤ → ℤ → CryptoWithdraw → Operation
  approve : ℕ → ℕ → Operation
  approve_admin : ℕ → ℕ → ℕ → Option ℕ → Operation
  reject_admin : ℕ → ℕ → ℕ → ℕ → ℕ → Operation
  confirm_manual : Bool → (Withdrawal → Text → Bool) → ℕ → ℕ → ℕ → Text → ℕ → Operation
  fail : ℕ → ℕ → ℕ → FailureReason → Operation
  complete : (ℕ → ℕ) → ℕ → ℕ → Text → Operation
  resolve : (ℕ → ℕ) → (ℕ → CustodyAnswer) → ℕ → ℕ → ℕ → Directive → Operation
  cancel : ℕ → ℕ → ℕ → Operation
  claim_approved : ℕ → ℕ → Operation
  claim_stuck : ℕ → ℕ → ℕ → Operation
  process : ℕ → ℕ → Submission → Operation
  track : (ℕ → ℕ) → ℕ → ℕ → CryptoStatus → CustodyStatus → Option Text → Operation

unfoldable pub perform : Operation → Store → Result WithdrawalError Store
perform (request fresh now threshold used dto) x = do
  r ← crypto_withdraw fresh now threshold used dto x
  ok r.1
perform (approve now id) x = approve_withdrawal now id x
perform (approve_admin now id admin reason) x = approve_withdrawal_admin now id admin reason x
perform (reject_admin tx now id admin reason) x = reject_withdrawal_admin tx now id admin reason x
perform (confirm_manual configured verify provider now id h admin) x =
    confirm_manual_withdrawal configured verify provider now id h admin x
perform (fail tx now id reason) x = fail_withdrawal tx now id reason x
perform (complete fresh now id h) x = complete_withdrawal fresh now id h x
perform (resolve fresh ask now id admin directive) x =
    resolve_withdrawal_admin fresh ask now id admin directive x
perform (cancel tx now id) x = cancel_withdrawal tx now id x
perform (claim_approved now limit) x = ok (claim_approved_withdrawals now limit x).1
perform (claim_stuck now limit older_than) x = ok (claim_stuck_withdrawals now limit older_than x).1
perform (process now id s) x = ok (process_withdrawal now id s x)
perform (track fresh now id s c h) x = ok (track_status fresh now id s c h x)
