-- ===== src/Ledger/Laws/Reconciliation.antt =====
-- `reconcile` (ledger.service.ts) against `postTransaction`.
use mathlib.Core.Path.{ap₂}
use novacex.Prelude.{
  ℕ, ◌≡◌, sym, ap, ◌∙◌, ◌&&◌, none, inl, inr, List, [], ◌∷◌, ◌++◌, arith, ◌==◌, if◌then◌else◌,
  Option-cases,
}
use novacex.Prelude.Int.{ℤ, pos, ◌+ℤ◌, ◌-ℤ◌, int_laws, zero-+ℤ, +ℤ_assoc, eqb_ℤ}
use novacex.Ledger.{
  Direction, credit, debit, Wallet, Entry, LedgerEntry, PostInput, Db, TransactionResult, ok,
}
use novacex.Ledger.Wallets.{key_eq, entry_key, find_wallet, put_wallet, apply_entry}
use novacex.Ledger.Post.{prepare, find_transaction, ledger_row, apply_entries, post_transaction}
use novacex.Ledger.Service.{get_balance, is_direction, sum_rows, reconcile}
use novacex.Ledger.Laws.Maps.{balance_of}
use novacex.Ledger.Laws.Effect.{signed, nothing_written, apply_entries-cons}
use novacex.Ledger.Laws.Balances.{post-Committed, locked_states, post_transaction_balances}
use novacex.Ledger.Laws.Enforcement.{net_key, holding}
use novacex.Ledger.Laws.Conservation.{holding-moved}

sum_rows-append :
    (d : Direction) (a s : ℕ) (xs ys : List LedgerEntry)
    → sum_rows d a s (xs ++ ys) ≡ sum_rows d a s xs +ℤ sum_rows d a s ys
unfolding sum_rows
sum_rows-append d a s [] ys = sym (zero-+ℤ (sum_rows d a s ys))
sum_rows-append d a s (x ∷ xs) ys =
    rw (sum_rows-append d a s xs ys) (sym (+ℤ_assoc _ (sum_rows d a s xs) (sum_rows d a s ys)))

regroup_sub : (a b c d : ℤ) → a +ℤ b -ℤ (c +ℤ d) ≡ a -ℤ c +ℤ (b -ℤ d)
regroup_sub a b c d = omega int_laws

-- What one row counts for.
abbrev row_amount : Direction → ℕ → ℕ → LedgerEntry → ℤ
row_amount d a s e =
    if e.account == a && e.asset == s && is_direction e.direction d then e.amount else pos 0

sub-zero : (x : ℤ) → x -ℤ pos 0 ≡ x
sub-zero x = omega int_laws

row-net :
    (id a s : ℕ) (e : Entry) (w : Wallet)
    → row_amount credit a s (ledger_row id e w) -ℤ row_amount debit a s (ledger_row id e w)
      ≡ (if key_eq (entry_key e) (a, s) then signed e.direction e.amount else pos 0)
row-net id a s e w = ground (arith, sub-zero e.amount, sub-zero (pos 0))

-- The rows that step 5 writes for a key hold what the entries move on it.
rows-net :
    (id a s : ℕ) (es : List Entry) (ws : List Wallet) {r : List Wallet × List LedgerEntry}
    → apply_entries id es ws ≡ ok r
    → sum_rows credit a s r.1 -ℤ sum_rows debit a s r.1 ≡ net_key (a, s) es
unfolding sum_rows net_key
rows-net id a s [] ws h = rw (nothing_written id ws h) (omega int_laws)
rows-net id a s (e ∷ es) ws h =
    let (w, rest, found, more, last) = apply_entries-cons id e es ws h in
    rw last (
      regroup_sub (row_amount credit a s (ledger_row id e (apply_entry e w)))
        (sum_rows credit a s rest.1) (row_amount debit a s (ledger_row id e (apply_entry e w)))
        (sum_rows debit a s rest.1)
      ∙ ap₂ ◌+ℤ◌ (row-net id a s e (apply_entry e w))
          (rows-net id a s es (put_wallet (apply_entry e w) ws) more))

total-holding :
    (a s : ℕ) (db : Db)
    → (get_balance a s db).total_balance ≡ holding (balance_of (find_wallet (a, s) db.wallets))
unfolding get_balance
total-holding a s db = elim (Option-cases (find_wallet (a, s) db.wallets)) [
  | inl e ↦ ground arith
  | inr (w, e) ↦ ground arith
]

shift : (t c c' d d' n : ℤ) → c' -ℤ d' ≡ n → t +ℤ n -ℤ (c +ℤ c' -ℤ (d +ℤ d')) ≡ t -ℤ (c -ℤ d)
shift t c c' d d' n h = rw (← h) (omega int_laws)

-- Posting a new transaction moves a wallet and its ledger rows by the same amount: the discrepancy
-- that reconciliation reports, and its verdict, stay as they were for every account and asset.
pub reconcile-post_transaction :
    (id : ℕ) (input : PostInput) (es : List Entry) (db : Db) (r : TransactionResult) (a s : ℕ)
    → prepare input ≡ ok es
    → find_transaction input.account input.reference db.transactions ≡ none
    → (post_transaction id input db).0 ≡ ok r
    → let before = reconcile a s db in
      let after = reconcile a s (post_transaction id input db).1 in
      (after.discrepancy ≡ before.discrepancy) × (after.is_consistent ≡ before.is_consistent)
unfolding reconcile
reconcile-post_transaction id input es db r a s prepared new posted =
    let c = post-Committed id input es db prepared new posted in
    let b = post_transaction_balances id input es db r (a, s) prepared new posted in
    let rows = c.applied.1 in
    let total =
      total-holding a s (post_transaction id input db).1
      ∙ ap holding b
      ∙ holding-moved (a, s) es (balance_of (find_wallet (a, s) db.wallets))
      ∙ ap (λ x. x +ℤ net_key (a, s) es) (sym (total-holding a s db)) in
    let side = λ (d : Direction).
      ap (λ t. sum_rows d a s t.entries) c.tables ∙ sum_rows-append d a s db.entries rows in
    let same =
      ap₂ ◌-ℤ◌ total (ap₂ ◌-ℤ◌ (side credit) (side debit))
      ∙ shift (get_balance a s db).total_balance (sum_rows credit a s db.entries)
          (sum_rows credit a s rows) (sum_rows debit a s db.entries) (sum_rows debit a s rows)
          (net_key (a, s) es) (rows-net id a s es (locked_states es db).0 c.applied_all) in
    (same, ap (λ x. eqb_ℤ x (pos 0)) same)
