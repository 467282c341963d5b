-- ===== src/Withdrawals/Funds.antt =====
-- What a withdrawal posts to the ledger (withdrawal.service.ts): the reservation, its release and
-- the settlement, and the rows of the table of withdrawals.
use novacex.Prelude.{ℕ, ◌+◌, ◌*◌, Option, none, some, List, [], ◌∷◌, map, ◌==◌, if◌then◌else◌}
use novacex.Prelude.Int.{ℤ, pos, ◌+ℤ◌, ltb_ℤ}
use novacex.Prelude.Result.{Result, ok, ◌>>=◌}
use novacex.Decimal.{Text, from_big_int}
use novacex.Ledger.{
  TxType, withdrawal_settle, withdrawal_fee, adjustment, Direction, credit, debit, Pool, available,
  locked, Entry, EntryInput, PostInput,
}
use novacex.Ledger.Post.{post_transaction}
use novacex.Withdrawals.{
  completed, crypto_completed, CryptoStatus, TransferStatus, Withdrawal, Store, WithdrawalError,
  posted_in,
}

-- The references `wd_res_`, `wd_rel_`, `wd_cxl_`, `wd_resolve_rel_`, `wd_stl_` and `wd_fee_`, each
-- with an identifier behind it.
abbrev pub reservation_reference : ℕ → ℕ
reservation_reference r = r * 8 + 0

abbrev pub release_reference : ℕ → ℕ
release_reference id = id * 8 + 1

abbrev pub cancel_reference : ℕ → ℕ
cancel_reference id = id * 8 + 2

abbrev pub resolve_reference : ℕ → ℕ
resolve_reference id = id * 8 + 3

abbrev pub settle_reference : ℕ → ℕ
settle_reference id = id * 8 + 4

abbrev pub fee_reference : ℕ → ℕ
fee_reference id = id * 8 + 5

-- `SYSTEM_VAULT`, 11111111-1111-1111-1111-111111111111
abbrev pub system_vault : ℕ
system_vault = 0x11111111111111111111111111111111

-- A description is its text, here a number, followed by the asset.
abbrev pub describe : ℕ → ℕ → ℕ
describe text asset = asset * 8 + text

abbrev pub wallet_entry : ℕ → ℕ → ℤ → Direction → Pool → Entry
wallet_entry account asset amount direction pool = record {
  account = account;
  asset = asset;
  direction = direction;
  amount = amount;
  pool = pool;
}

-- An entry as it is posted, its amount a decimal string.
abbrev pub entry_input : Entry → EntryInput
entry_input e = record {
  account = e.account;
  asset = e.asset;
  direction = e.direction;
  amount = from_big_int e.amount;
  balance_pool = some e.pool;
}

abbrev pub post_of : ℕ → TxType → ℕ → ℕ → List Entry → PostInput
post_of account type reference description es = record {
  account = account;
  transaction_type = type;
  reference = reference;
  description = description;
  entries = map entry_input es;
}

abbrev pub reserve_entries : ℕ → ℕ → ℤ → List Entry
reserve_entries account asset total =
    wallet_entry account asset total debit available
    ∷ wallet_entry account asset total credit locked
    ∷ []

abbrev pub release_entries : ℕ → ℕ → ℤ → List Entry
release_entries account asset total =
    wallet_entry account asset total debit locked
    ∷ wallet_entry account asset total credit available
    ∷ []

abbrev pub settlement_entries : Withdrawal → List Entry
settlement_entries w = wallet_entry w.account w.asset w.amount debit locked ∷ []

abbrev pub fee_entries : Withdrawal → List Entry
fee_entries w =
    wallet_entry w.account w.asset w.fee debit locked
    ∷ wallet_entry system_vault w.asset w.fee credit available
    ∷ []

-- `totalDeduction`
abbrev pub total_deduction : Withdrawal → ℤ
total_deduction w = w.amount +ℤ w.fee

-- `SELECT * FROM withdrawals WHERE id = $1 FOR UPDATE`
unfoldable pub find_withdrawal : ℕ → List Withdrawal → Option Withdrawal
find_withdrawal id [] = none
find_withdrawal id (w ∷ ws) = if w.id == id then some w else find_withdrawal id ws

-- `UPDATE withdrawals SET … WHERE id = $1`
unfoldable pub update_withdrawal : ℕ → (Withdrawal → Withdrawal) → List Withdrawal → List Withdrawal
update_withdrawal id set [] = []
update_withdrawal id set (w ∷ ws) = (if w.id == id then set w else w) ∷ update_withdrawal id set ws

unfoldable pub write : ℕ → (Withdrawal → Withdrawal) → Store → Store
unfolding update_withdrawal
write id set x = record x { withdrawals = update_withdrawal id set x.withdrawals }

-- The columns status, crypto_status and updated_at.
abbrev pub closed_as : TransferStatus → CryptoStatus → ℕ → Withdrawal → Withdrawal
closed_as status crypto now w = record w {
  status = status;
  crypto_status = crypto;
  updated_at = now;
}

-- The release of the reserved funds of `w` back to the available balance.
unfoldable pub release_funds : ℕ → ℕ → ℕ → Withdrawal → Store → Result WithdrawalError (ℕ × Store)
release_funds id reference text w x = posted_in x (
    post_transaction id
      (post_of w.account adjustment reference (describe text w.asset)
        (release_entries w.account w.asset (total_deduction w)))
      x.db)

unfoldable pub post_settle : ℕ → Withdrawal → Store → Result WithdrawalError (ℕ × Store)
post_settle id w x = posted_in x (
    post_transaction id
      (post_of w.account withdrawal_settle (settle_reference w.id) (describe 4 w.asset)
        (settlement_entries w))
      x.db)

-- The fee, if there is one.
unfoldable pub post_fee : ℕ → Withdrawal → Store → Result WithdrawalError (ℕ × Store)
post_fee id w x =
    if ltb_ℤ (pos 0) w.fee
    then posted_in x (
        post_transaction id
          (post_of w.account withdrawal_fee (fee_reference w.id) (describe 5 w.asset)
            (fee_entries w))
          x.db)
    else ok (id, x)

-- `settleCompletedWithdrawal`; `fresh` gives the UUIDs of the two transactions.
unfoldable pub settle_completed_withdrawal :
    (ℕ → ℕ) → ℕ → Text → Withdrawal → Store → Result WithdrawalError Store
unfolding post_settle post_fee write
settle_completed_withdrawal fresh now tx_hash w x = do
  settled ← post_settle (fresh 0) w x
  paid ← post_fee (fresh 1) w settled.1
  ok (
      write w.id
        (λ row. record (closed_as completed crypto_completed now row) { tx_hash = some tx_hash })
        paid.1)
