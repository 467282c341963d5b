-- ===== src/Withdrawals/Laws/Requests.antt =====
-- `cryptoWithdraw` (withdrawal.service.ts) as a step of the abstract machine, and the tables that the
-- steps start from.
use novacex.Prelude.{
  ℕ, ◌≡◌, refl, ap, ◌∙◌, inl, inr, ◌&&◌, Option, none, some, List, [], ◌∷◌, arith, Bool-cases, ◌==◌,
  All,
}
use novacex.Prelude.Int.{int_laws, ℤ, pos, ◌+ℤ◌, ◌≤ℤ◌}
use novacex.Prelude.Result.{Result, ok, >>=_passed}
use novacex.Ledger.{withdrawal}
use novacex.Withdrawals.{Withdrawal, FundingAccount, AssetNetwork, Reason, Store, WithdrawalError}
use novacex.Withdrawals.Funds.{reservation_reference, reserve_entries, describe, find_withdrawal}
use novacex.Withdrawals.Service.{
  excess_of, CryptoWithdraw, find_network, funding_account, check_request, reserve_funds,
  new_withdrawal, insert, crypto_withdraw,
}
use novacex.Withdrawals.Operations.{Operation, request}
use novacex.Withdrawals.Laws.Rows.{IsKeyed}
use novacex.Withdrawals.Laws.Posts.{locked_at, post_of_moves, post_of_leaves, net-reserve}
use novacex.Withdrawals.Laws.Closing.{Free}
use novacex.Withdrawals.Laws.Changes.{Unused, Change, requested}
use novacex.Withdrawals.Laws.Ends.{IsOpen}

-- No identifier stands twice, every pending withdrawal is still to be ended, and no network has a fee
-- below zero.
pub record IsSound (x : Store) : Type 0 where
  pub keyed : IsKeyed x.withdrawals
  pub open_rows : IsOpen x
  pub fees : All (λ n. pos 0 ≤ℤ n.withdrawal_fee) x.networks

-- The client's reference of a request has not been used on the account, and the UUIDs that it draws
-- are fresh.
abbrev pub IsNew : Operation → Store → Type 0
IsNew (request fresh now threshold used dto) x =
    (find_withdrawal (fresh 1) x.withdrawals ≡ none)
    × ((a : FundingAccount)
        → funding_account dto.user x.accounts ≡ some a
        → Free a.id (reservation_reference dto.reference) x × Unused a.id (fresh 1) x)
IsNew _ x = Unit

-- What a request that passes its checks goes on with.
checked_request :
    (threshold : Option ℤ) (used : ℤ) (dto : CryptoWithdraw) (x : Store)
    {c : FundingAccount × AssetNetwork × ℤ × List Reason}
    → check_request threshold used dto x ≡ ok c
    → (funding_account dto.user x.accounts ≡ some c.0)
      × (find_network dto.asset dto.network x.networks ≡ some c.1)
unfolding check_request
checked_request threshold used dto x {c} h = (ground arith, ground arith)

fee_of_network :
    (asset network : ℕ) (ns : List AssetNetwork) {n : AssetNetwork}
    → All (λ m. pos 0 ≤ℤ m.withdrawal_fee) ns
    → find_network asset network ns ≡ some n
    → pos 0 ≤ℤ n.withdrawal_fee
unfolding find_network
fee_of_network asset network [] fees h = absurd (ground arith)
fee_of_network asset network (m ∷ ms) {n} fees h =
    elim (Bool-cases (m.asset == asset && m.network == network)) [
      | inl here ↦ let same : m ≡ n = ground arith in rw (← same) fees.0
      | inr other ↦ fee_of_network asset network ms {n = n} fees.1 (ground arith)
    ]

add_excess : (a e fee : ℤ) → a +ℤ e +ℤ fee ≡ a +ℤ fee +ℤ e
add_excess a e fee = omega int_laws

pub request-Change :
    (fresh : ℕ → ℕ) (now : ℕ) (threshold : Option ℤ) (used : ℤ) (dto : CryptoWithdraw) (x : Store)
    {r : Withdrawal × Store}
    → IsSound x
    → IsNew (request fresh now threshold used dto) x
    → crypto_withdraw fresh now threshold used dto x ≡ ok r
    → Change (excess_of dto.amount) x r.1
unfolding crypto_withdraw reserve_funds
request-Change fresh now threshold used dto x {r} sound unused h =
    let (c, checked, rest) = >>=_passed (check_request threshold used dto x) _ h in
    let total = c.2 +ℤ c.1.withdrawal_fee in
    let (s, posted_in, last) = >>=_passed (reserve_funds (fresh 0) dto c.0.id total x) _ rest in
    let w = new_withdrawal (fresh 1) now dto c.0 c.1 c.2 c.3 s.0 in
    let seen = checked_request threshold used dto x checked in
    let free = unused.1 c.0 seen.0 in
    let es = reserve_entries c.0.id dto.asset total in
    let ref = reservation_reference dto.reference in
    let m =
      post_of_moves (fresh 0) c.0.id ref (describe 0 dto.asset) withdrawal es x free.0 posted_in in
    let pair : ◌≡◌ {A = Result WithdrawalError (Withdrawal × Store)} (ok (w, insert w s.1)) (ok r) =
      last in
    requested (record {
      row = w;
      total = total;
      exceeds = add_excess c.2 (excess_of dto.amount) c.1.withdrawal_fee;
      reference = dto.reference;
      between = s.1;
      locks = record {
        added = λ k.
            ap (λ b. b.1) (m k).0
            ∙ ap (λ n. locked_at k x +ℤ n) (net-reserve k c.0.id dto.asset total);
        rows = (m (0, 0)).1;
        nets = (m (0, 0)).2;
        leaves =
            post_of_leaves (fresh 0) c.0.id ref (describe 0 dto.asset) withdrawal es x free.0
              posted_in;
      };
      is_open = refl;
      is_new = unused.0;
      unused = free.1;
      fee = fee_of_network dto.asset dto.network x.networks sound.fees seen.1;
      result = cc;
    })
