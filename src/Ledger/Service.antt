-- ===== src/Ledger/Service.antt =====
-- The other methods of `LedgerService` (ledger.service.ts): balances, the five movements, and the
-- reconciliation of a wallet with its ledger rows.
use novacex.Prelude.{
  ℕ, Bool, true, false, ◌&&◌, Option, none, some, List, [], ◌∷◌, ◌==◌, if◌then◌else◌,
}
use novacex.Prelude.Int.{ℤ, pos, ◌+ℤ◌, ◌-ℤ◌, eqb_ℤ}
use novacex.Decimal.{Text}
use novacex.Decimal.Ops.{validate_amount}
use novacex.Ledger.{
  LedgerError, TxType, internal_transfer, Direction, credit, debit, Pool, available, locked,
  EntryInput, PostInput, Wallet, LedgerEntry, Db, TransactionResult, invalid_amount, Result, err,
}
use novacex.Ledger.Wallets.{find_wallet}
use novacex.Ledger.Post.{post_transaction}

pub record BalanceResult : Type 0 where
  pub available_balance : ℤ
  pub locked_balance : ℤ
  pub total_balance : ℤ

abbrev balance_row : Option Wallet → BalanceResult
balance_row none = record {
  available_balance = pos 0;
  locked_balance = pos 0;
  total_balance = pos 0 +ℤ pos 0;
}
balance_row (some w) = record {
  available_balance = w.available;
  locked_balance = w.locked;
  total_balance = w.available +ℤ w.locked;
}

-- `getBalance`: zero where there is no row.
unfoldable pub get_balance : ℕ → ℕ → Db → BalanceResult
get_balance account asset db = balance_row (find_wallet (account, asset) db.wallets)

-- The arguments that the movements share: account, asset, amount, type, reference, description.
pub record Movement : Type 0 where
  pub account : ℕ
  pub asset : ℕ
  pub amount : Text
  pub transaction_type : TxType
  pub reference : ℕ
  pub description : ℕ

abbrev pub leg : ℕ → Movement → Direction → Pool → EntryInput
leg account m d p = record {
  account = account;
  asset = m.asset;
  direction = d;
  amount = m.amount;
  balance_pool = some p;
}

abbrev pub input_of : Movement → List EntryInput → PostInput
input_of m entries = record {
  account = m.account;
  transaction_type = m.transaction_type;
  reference = m.reference;
  description = m.description;
  entries = entries;
}

-- `validateAmount(amount)`, then the post.
unfoldable pub validated :
    ℕ → Movement → List EntryInput → Db → Result LedgerError TransactionResult × Db
validated id m entries db =
    if validate_amount m.amount
    then post_transaction id (input_of m entries) db
    else (err (invalid_amount m.amount), db)

unfoldable pub credit_account : ℕ → Movement → Db → Result LedgerError TransactionResult × Db
credit_account id m = validated id m (leg m.account m credit available ∷ [])

unfoldable pub debit_account : ℕ → Movement → Db → Result LedgerError TransactionResult × Db
debit_account id m = validated id m (leg m.account m debit available ∷ [])

unfoldable pub reserve : ℕ → Movement → Db → Result LedgerError TransactionResult × Db
reserve id m = validated id m (leg m.account m debit available ∷ leg m.account m credit locked ∷ [])

unfoldable pub release : ℕ → Movement → Db → Result LedgerError TransactionResult × Db
release id m = validated id m (leg m.account m debit locked ∷ leg m.account m credit available ∷ [])

-- From `m.account` to `to`.
unfoldable pub transfer : ℕ → Movement → ℕ → Db → Result LedgerError TransactionResult × Db
transfer id m to =
    let m' = record m { transaction_type = internal_transfer } in
    validated id m' (leg m.account m' debit available ∷ leg to m' credit available ∷ [])

-- `SUM(amount) … WHERE account_id = $1 AND asset = $2 AND direction = …`
abbrev pub is_direction : Direction → Direction → Bool
is_direction credit credit = true
is_direction debit debit = true
is_direction _ _ = false

unfoldable pub sum_rows : Direction → ℕ → ℕ → List LedgerEntry → ℤ
sum_rows d account asset [] = pos 0
sum_rows d account asset (e ∷ es) =
    (if e.account == account && e.asset == asset && is_direction e.direction d
      then e.amount
      else pos 0)
    +ℤ sum_rows d account asset es

pub record ReconciliationResult : Type 0 where
  pub wallet_available : ℤ
  pub wallet_locked : ℤ
  pub wallet_total : ℤ
  pub ledger_net_credits : ℤ
  pub ledger_net_debits : ℤ
  pub ledger_computed_balance : ℤ
  pub is_consistent : Bool
  pub discrepancy : ℤ

unfoldable pub reconcile : ℕ → ℕ → Db → ReconciliationResult
reconcile account asset db =
    let balance = get_balance account asset db in
    let total_credits = sum_rows credit account asset db.entries in
    let total_debits = sum_rows debit account asset db.entries in
    let ledger_computed = total_credits -ℤ total_debits in
    let discrepancy = balance.total_balance -ℤ ledger_computed in
    record {
      wallet_available = balance.available_balance;
      wallet_locked = balance.locked_balance;
      wallet_total = balance.total_balance;
      ledger_net_credits = total_credits;
      ledger_net_debits = total_debits;
      ledger_computed_balance = ledger_computed;
      is_consistent = eqb_ℤ discrepancy (pos 0);
      discrepancy = discrepancy;
    }
