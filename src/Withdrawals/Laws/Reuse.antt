-- ===== src/Withdrawals/Laws/Reuse.antt =====
-- `cryptoWithdraw` (withdrawal.service.ts) under a client's reference that has been used before.
use novacex.Prelude.{
  ℕ, ◌≡◌, refl, ap, ◌∙◌, Bool, true, false, Option, some, List, [], ◌∷◌, ◌++◌, arith, if◌then◌else◌,
}
use novacex.Prelude.Int.{ℤ, pos, ◌+ℤ◌, ◌-ℤ◌, ◌<ℤ◌, int_laws}
use novacex.Prelude.Result.{ok}
use novacex.Decimal.{from_big_int}
use novacex.Decimal.RoundTrip.{to_big_int-from_big_int}
use novacex.Decimal.Validate.{validate_amount_iff}
use novacex.Ledger.{withdrawal, LedgerTransaction, Entry, credit, debit, available, locked}
use novacex.Ledger.Wallets.{Key, key_eq}
use novacex.Ledger.Post.{
  read_entry, read_entries, prepare, prepare_entries, enforce_balance, find_transaction,
}
use novacex.Ledger.Laws.Replay.{post_again}
use novacex.Withdrawals.{
  pending, Withdrawal, FundingAccount, AssetNetwork, Reason, Store, posted_in,
}
use novacex.Withdrawals.Funds.{
  reservation_reference, describe, wallet_entry, entry_input, post_of, reserve_entries,
  total_deduction,
}
use novacex.Withdrawals.Service.{
  excess_of, CryptoWithdraw, check_request, reserve_funds, new_withdrawal, insert, crypto_withdraw,
}
use novacex.Withdrawals.Laws.Rows.{reserved_by, reserved_by-append}
use novacex.Withdrawals.Laws.Posts.{locked_at}
use novacex.Withdrawals.Laws.Locked.{unreserved, pending_reservation}

read_printed : (e : Entry) → pos 0 <ℤ e.amount → read_entry (entry_input e) ≡ ok e
unfolding read_entry
read_printed e h =
    let exact = to_big_int-from_big_int e.amount in
    let valid = (validate_amount_iff (from_big_int e.amount)).1 (e.amount, exact, h) in
    ground (arith, exact, valid)

prepare_reservation :
    (account asset reference description : ℕ) (total : ℤ)
    → pos 0 <ℤ total
    → prepare
        (post_of account withdrawal reference description (reserve_entries account asset total))
      ≡ ok (reserve_entries account asset total)
unfolding prepare prepare_entries read_entries enforce_balance
prepare_reservation account asset reference description total h =
    rw
      (
        read_printed (wallet_entry account asset total debit available) h,
        read_printed (wallet_entry account asset total credit locked) h,
      )
      refl

drop_total :
    (t : Bool) (total l r : ℤ)
    → l -ℤ (r +ℤ (if t then total else pos 0)) ≡ l -ℤ r -ℤ (if t then total else pos 0)
drop_total true total l r = omega int_laws
drop_total false total l r = omega int_laws

-- What a request leaves when its reservation is answered from an earlier one.
abbrev pub Unbacked :
    CryptoWithdraw
    → FundingAccount × AssetNetwork × ℤ × List Reason
    → Store
    → Withdrawal × Store
    → Type 0
Unbacked dto c x r =
    (r.1.db ≡ x.db)
    × (r.0.amount ≡ c.2 +ℤ excess_of dto.amount)
    × (r.0.status ≡ pending)
    × (r.1.withdrawals ≡ x.withdrawals ++ r.0 ∷ [])
    × ((k : Key)
        → unreserved k r.1
          ≡ unreserved k x
            -ℤ (if key_eq (c.0.id, dto.asset) k
                then c.2 +ℤ excess_of dto.amount +ℤ c.1.withdrawal_fee
                else pos 0))

reserve_again :
    (id : ℕ) (dto : CryptoWithdraw) (account : ℕ) (total : ℤ) (x : Store) (t : LedgerTransaction)
    → pos 0 <ℤ total
    → find_transaction account (reservation_reference dto.reference) x.db.transactions ≡ some t
    → t.transaction_type ≡ withdrawal
    → t.description ≡ describe 0 dto.asset
    → reserve_funds id dto account total x ≡ ok (t.id, x)
unfolding reserve_funds
reserve_again id dto account total x t positive used same_type same_text =
    let es = reserve_entries account dto.asset total in
    let ref = reservation_reference dto.reference in
    let text = describe 0 dto.asset in
    let input = post_of account withdrawal ref text es in
    ap (posted_in x) (
      post_again id input es x.db t (prepare_reservation account dto.asset ref text total positive)
        used same_type same_text)

-- A request that passes its checks is accepted also under a client's reference that an earlier
-- withdrawal of the asset has used, for any amount: a pending withdrawal of the amount asked for, as
-- the database rounds it, is stored, but the ledger is as it was, so nothing is locked for it, and what is locked beyond the
-- pending withdrawals falls by its amount and fee.
pub crypto_withdraw_reused :
    (fresh : ℕ → ℕ) (now : ℕ) (threshold : Option ℤ) (used : ℤ) (dto : CryptoWithdraw) (x : Store)
    (c : FundingAccount × AssetNetwork × ℤ × List Reason) (t : LedgerTransaction)
    → check_request threshold used dto x ≡ ok c
    → pos 0 <ℤ c.2 +ℤ c.1.withdrawal_fee
    → find_transaction c.0.id (reservation_reference dto.reference) x.db.transactions ≡ some t
    → t.transaction_type ≡ withdrawal
    → t.description ≡ describe 0 dto.asset
    → (r : Withdrawal × Store) × (crypto_withdraw fresh now threshold used dto x ≡ ok r)
      × Unbacked dto c x r
unfolding crypto_withdraw
crypto_withdraw_reused fresh now threshold used dto x c t checked positive taken same_type
      same_text =
    let total = c.2 +ℤ c.1.withdrawal_fee in
    let w = new_withdrawal (fresh 1) now dto c.0 c.1 c.2 c.3 t.id in
    let again = reserve_again (fresh 0) dto c.0.id total x t positive taken same_type same_text in
    (
      (w, insert w x),
      rw (checked, crypto_withdraw, again) refl,
      (
        refl,
        refl,
        refl,
        refl,
        λ k.
            ap (λ n. locked_at k x -ℤ n)
              (reserved_by-append k x.withdrawals w
                ∙ ap (λ n. reserved_by k x.withdrawals +ℤ n) (pending_reservation k w refl))
            ∙ drop_total (key_eq (c.0.id, dto.asset) k) (total_deduction w) (locked_at k x)
                (reserved_by k x.withdrawals),
      ),
    )
