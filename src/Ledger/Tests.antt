-- ===== src/Ledger/Tests.antt =====
-- The ledger at concrete accounts.
use novacex.Prelude.{ℕ, ◌≡◌, refl, ◌≢◌, none, some, List, [], ◌∷◌, arith, All}
use novacex.Prelude.Int.{ℤ, pos, ◌+ℤ◌, ◌-ℤ◌}
use novacex.Decimal.{to_big_int, trim, is_space, is_decimal, scaled_magnitude}
use novacex.Decimal.Ops.{codes, validate_amount}
use novacex.Ledger.{
  deposit, internal_transfer, spot_order_lock, spot_order_unlock, credit, debit, available, locked,
  PostInput, Entry, Db, TransactionResult, LedgerError, unbalanced_transaction, Result, ok, err,
  TxType-discrete, is_external_boundary,
}
use novacex.Ledger.Wallets.{
  find_wallet, put_wallet, update_row, wallet_keys, sort_keys, lock_wallets, apply_entry,
  check_entry,
}
use novacex.Ledger.Totals.{per_asset_totals, check_totals}
use novacex.Ledger.Post.{
  read_entry, read_entries, enforce_balance, prepare_entries, prepare, find_transaction, entries_of,
  validate_entries, apply_entries, update_wallets, execute_logic, post_transaction, posted_result,
}
use novacex.Ledger.Service.{
  Movement, reserve, release, transfer, validated, leg, input_of, reconcile,
}
use novacex.Ledger.Laws.Maps.{balance_of}
use novacex.Ledger.{insufficient_balance}
use novacex.Ledger.Laws.Balances.{moved, post_transaction_balances}
use novacex.Ledger.Laws.Enforcement.{debits, credits, total_held}
use novacex.Ledger.Laws.Conservation.{post_transaction_conserves}
use novacex.Ledger.Laws.Cover.{IsCovered, post_transaction-IsCovered}
use novacex.Ledger.Laws.Replay.{post_transaction_idempotent}
use novacex.Ledger.Laws.Rejection.{post_transaction_unbalanced}
use novacex.Ledger.Laws.Reconciliation.{reconcile-post_transaction}

-- Account 1 holds 5 units of asset 7.
abbrev db : Db
db = record {
  wallets =
      record { account = 1; asset = 7; available = pos 5000000000000000000; locked = pos 0 } ∷ [];
  transactions = [];
  entries = [];
}

-- Opens all that a post computes with.
run_post : ℕ → PostInput → Db → Result LedgerError TransactionResult × Db
unfolding post_transaction execute_logic prepare prepare_entries read_entries read_entry
    enforce_balance is_external_boundary per_asset_totals check_totals validate_amount to_big_int
    trim is_space is_decimal scaled_magnitude find_transaction lock_wallets sort_keys wallet_keys
    validate_entries apply_entries put_wallet check_entry apply_entry update_wallets update_row
    entries_of TxType-discrete ◌+ℤ◌ ◌-ℤ◌
run_post = post_transaction

abbrev lock_two : Movement
lock_two = record {
  account = 1;
  asset = 7;
  amount = codes "2";
  transaction_type = spot_order_lock;
  reference = 40;
  description = 0;
}

abbrev locking : PostInput
locking = input_of lock_two (leg 1 lock_two debit available ∷ leg 1 lock_two credit locked ∷ [])

abbrev locking_entries : List Entry
locking_entries =
    record {
      account = 1;
      asset = 7;
      direction = debit;
      amount = pos 2000000000000000000;
      pool = available;
    }
    ∷ record {
      account = 1;
      asset = 7;
      direction = credit;
      amount = pos 2000000000000000000;
      pool = locked;
    }
    ∷ []

locking_prepared : prepare locking ≡ ok locking_entries
unfolding run_post
locking_prepared = refl

locking_new : find_transaction 1 40 [] ≡ none
unfolding find_transaction
locking_new = refl

abbrev locking_result : TransactionResult
locking_result = posted_result 900 locking (
    record {
      direction = debit;
      asset = 7;
      amount = pos 2000000000000000000;
      balance_after = pos 3000000000000000000;
    }
    ∷ record {
      direction = credit;
      asset = 7;
      amount = pos 2000000000000000000;
      balance_after = pos 5000000000000000000;
    }
    ∷ [])

locking_posted : (post_transaction 900 locking db).0 ≡ ok locking_result
unfolding run_post
locking_posted = refl

post_transaction_balances_example :
    balance_of (find_wallet (1, 7) (post_transaction 900 locking db).1.wallets)
    ≡ moved (1, 7) locking_entries (pos 5000000000000000000, pos 0)
post_transaction_balances_example =
    post_transaction_balances 900 locking locking_entries db locking_result (1, 7) locking_prepared
      locking_new locking_posted

post_transaction_conserves_example :
    total_held 7 (1 ∷ 3 ∷ []) (post_transaction 900 locking db).1.wallets
    ≡ total_held 7 (1 ∷ 3 ∷ []) db.wallets
unfolding is_external_boundary
post_transaction_conserves_example =
    post_transaction_conserves 900 locking locking_entries db locking_result 7 (1 ∷ 3 ∷ [])
      locking_prepared refl locking_new locking_posted (refl, (refl, tt))

post_transaction-IsCovered_example : All IsCovered (post_transaction 900 locking db).1.wallets
post_transaction-IsCovered_example =
    post_transaction-IsCovered 900 locking locking_entries db locking_result locking_prepared
      locking_new locking_posted (ground arith)

post_transaction_idempotent_example :
    post_transaction 901 locking (post_transaction 900 locking db).1
    ≡ (ok locking_result, (post_transaction 900 locking db).1)
unfolding entries_of
post_transaction_idempotent_example =
    post_transaction_idempotent 900 901 locking locking_entries db locking_result locking_prepared
      locking_new refl locking_posted

-- Reference 40 is taken by a deposit.
abbrev taken : Db
taken = record db {
  transactions =
      record { id = 5; account = 1; transaction_type = deposit; reference = 40; description = 0 }
      ∷ [];
}

-- A debit with no credit.
abbrev one_sided : PostInput
one_sided = input_of lock_two (leg 1 lock_two debit available ∷ [])

post_transaction_unbalanced_example :
    (d : ℤ) × (c : ℤ) × (post_transaction 900 one_sided db ≡ (err (unbalanced_transaction d c), db))
    × (d ≢ c)
unfolding run_post debits credits
post_transaction_unbalanced_example =
    post_transaction_unbalanced 900 one_sided
      (record {
        account = 1;
        asset = 7;
        direction = debit;
        amount = pos 2000000000000000000;
        pool = available;
      }
        ∷ [])
      db 7 refl (ground arith) refl (ground arith)

-- 9 units do not fit.
abbrev lock_nine : Movement
lock_nine = record lock_two { amount = codes "9" }

abbrev over : PostInput
over = input_of lock_nine (leg 1 lock_nine debit available ∷ leg 1 lock_nine credit locked ∷ [])

abbrev over_entries : List Entry
over_entries =
    record {
      account = 1;
      asset = 7;
      direction = debit;
      amount = pos 9000000000000000000;
      pool = available;
    }
    ∷ record {
      account = 1;
      asset = 7;
      direction = credit;
      amount = pos 9000000000000000000;
      pool = locked;
    }
    ∷ []

abbrev nine_missing : LedgerError
nine_missing = insufficient_balance available 7 (pos 9000000000000000000) (pos 5000000000000000000)

reconcile-post_transaction_example :
    let before = reconcile 1 7 db in
    let after = reconcile 1 7 (post_transaction 900 locking db).1 in
    (after.discrepancy ≡ before.discrepancy) × (after.is_consistent ≡ before.is_consistent)
reconcile-post_transaction_example =
    reconcile-post_transaction 900 locking locking_entries db locking_result 1 7 locking_prepared
      locking_new locking_posted

lock_two_read : to_big_int lock_two.amount ≡ some (pos 2000000000000000000)
unfolding run_post
lock_two_read = refl

lock_two_reserved : (reserve 900 lock_two db).0 ≡ ok locking_result
unfolding run_post reserve validated
lock_two_reserved = refl

abbrev unlock_two : Movement
unlock_two = record lock_two { transaction_type = spot_order_unlock; reference = 41 }

abbrev unlocking_result : TransactionResult
unlocking_result = posted_result 901 (input_of unlock_two []) (
    record {
      direction = debit;
      asset = 7;
      amount = pos 2000000000000000000;
      balance_after = pos 3000000000000000000;
    }
    ∷ record {
      direction = credit;
      asset = 7;
      amount = pos 2000000000000000000;
      balance_after = pos 5000000000000000000;
    }
    ∷ [])

unlock_new : find_transaction 1 41 (reserve 900 lock_two db).1.transactions ≡ none
unfolding run_post reserve validated
unlock_new = refl

unlock_two_released : (release 901 unlock_two (reserve 900 lock_two db).1).0 ≡ ok unlocking_result
unfolding run_post reserve release validated
unlock_two_released = refl

abbrev transfer_result : TransactionResult
transfer_result =
    posted_result 900 (input_of (record lock_two { transaction_type = internal_transfer }) []) (
      record {
        direction = debit;
        asset = 7;
        amount = pos 2000000000000000000;
        balance_after = pos 3000000000000000000;
      }
      ∷ record {
        direction = credit;
        asset = 7;
        amount = pos 2000000000000000000;
        balance_after = pos 2000000000000000000;
      }
      ∷ [])

transferred : (transfer 900 lock_two 3 db).0 ≡ ok transfer_result
unfolding run_post transfer validated
transferred = refl
