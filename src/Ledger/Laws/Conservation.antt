-- ===== src/Ledger/Laws/Conservation.antt =====
-- The total of an asset before and after `postTransaction` (ledger.service.ts).
use mathlib.Core.Path.{subst}
use novacex.Prelude.{ℕ, ◌≡◌, sym, ap, ◌∙◌, false, none, List, [], ◌∷◌, All}
use novacex.Prelude.Int.{ℤ, pos, pos_part, neg_part, ◌+ℤ◌, int_laws, +ℤ-zero}
use novacex.Ledger.{
  TxType, EntryInput, Wallet, Entry, PostInput, Db, TransactionResult, ok, is_external_boundary,
  >>=_passed,
}
use novacex.Ledger.Wallets.{Key, find_wallet}
use novacex.Ledger.Totals.{per_asset_totals, check_totals}
use novacex.Ledger.Post.{
  prepare, prepare_entries, enforce_balance, find_transaction, post_transaction, read_entries,
}
use novacex.Ledger.Laws.Maps.{balance_of}
use novacex.Ledger.Laws.Balances.{moved, post_transaction_balances}
use novacex.Ledger.Laws.Enforcement.{
  debits, check_totals-balanced, net_key, net_pools, net_accounts, net_accounts-sides, total_held,
  count, holding,
}

-- An internal transaction that passes validation balances.
enforced :
    (type : TxType) (is : List EntryInput) (es : List Entry)
    → prepare_entries type is ≡ ok es
    → enforce_balance type es ≡ ok tt
unfolding prepare_entries
enforced type [] es h = cc
enforced type (i ∷ is) es h =
    let (es', read, rest) = >>=_passed (read_entries (i ∷ is)) _ h in
    let (checked, passed, same) = >>=_passed (enforce_balance type es') _ rest in
    subst (λ l. enforce_balance type l ≡ ok tt) (cc same) (passed)

pub prepare_checked :
    (input : PostInput) (es : List Entry)
    → prepare input ≡ ok es
    → is_external_boundary input.transaction_type ≡ false
    → check_totals (per_asset_totals [] es) ≡ ok tt
unfolding prepare enforce_balance
prepare_checked input es h internal =
    rw internal at (enforced input.transaction_type input.entries es h)

pub holding-moved :
    (k : Key) (es : List Entry) (b : ℤ × ℤ) → holding (moved k es b) ≡ holding b +ℤ net_key k es
holding-moved k es b = rw (← net_pools k es) (omega int_laws)

total_held-moved :
    (s : ℕ) (accts : List ℕ) (es : List Entry) (before after : List Wallet)
    → ((k : Key)
        → balance_of (find_wallet k after) ≡ moved k es (balance_of (find_wallet k before)))
    → total_held s accts after ≡ total_held s accts before +ℤ net_accounts s accts es
unfolding total_held net_accounts
total_held-moved s [] es before after h = sym (+ℤ-zero (pos 0))
total_held-moved s (a ∷ accts) es before after h =
    let same = holding-moved (a, s) es (balance_of (find_wallet (a, s) before)) in
    rw (h (a, s), same, total_held-moved s accts es before after h) (omega int_laws)

cancel : (x d : ℤ) → x +ℤ d ≡ d → x ≡ pos 0
cancel x d h = omega (int_laws, ap pos_part h, ap neg_part h)

-- When an internal transaction with a new reference is posted, what any list of accounts that
-- names the account of every entry exactly once holds of an asset, available and locked together,
-- is the same before and after.
pub post_transaction_conserves :
    (id : ℕ) (input : PostInput) (es : List Entry) (db : Db) (r : TransactionResult) (s : ℕ)
    (accts : List ℕ)
    → prepare input ≡ ok es
    → is_external_boundary input.transaction_type ≡ false
    → find_transaction input.account input.reference db.transactions ≡ none
    → (post_transaction id input db).0 ≡ ok r
    → All (λ e. count e.account accts ≡ 1) es
    → total_held s accts (post_transaction id input db).1.wallets ≡ total_held s accts db.wallets
post_transaction_conserves id input es db r s accts prepared internal new posted once =
    let balanced = check_totals-balanced s es (prepare_checked input es prepared internal) in
    total_held-moved s accts es db.wallets (post_transaction id input db).1.wallets
      (λ k. post_transaction_balances id input es db r k prepared new posted)
    ∙ ap (λ x. total_held s accts db.wallets +ℤ x)
        (cancel _ (debits s es) (net_accounts-sides s accts es once ∙ sym balanced))
    ∙ +ℤ-zero (total_held s accts db.wallets)
