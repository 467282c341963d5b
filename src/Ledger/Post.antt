-- ===== src/Ledger/Post.antt =====
-- `postTransaction` (ledger.service.ts): validation, idempotency, balances, ledger rows, wallets.
use mathlib.Core.Logic.{ite}
use novacex.Prelude.{ℕ, Option, none, some, List, [], ◌∷◌, ◌++◌, map, ◌==◌, ◌&&◌, if◌then◌else◌}
use novacex.Prelude.Int.{◌+ℤ◌}
use novacex.Decimal.{to_big_int}
use novacex.Decimal.Ops.{validate_amount}
use novacex.Ledger.{
  LedgerError, TxType, TxType-discrete, is_external_boundary, Pool, available, EntryInput,
  PostInput, Entry, Wallet, LedgerTransaction, LedgerEntry, Db, ResultEntry, TransactionResult,
  transaction_failed, invalid_amount, reference_conflict, missing_wallet, Result, ok, err, ◌>>=◌,
}
use novacex.Ledger.Wallets.{
  entry_key, find_wallet, put_wallet, update_row, wallet_keys, sort_keys, lock_wallets, apply_entry,
  check_entry,
}
use novacex.Ledger.Totals.{per_asset_totals, check_totals}

abbrev pool_or_default : Option Pool → Pool
pool_or_default none = available
pool_or_default (some p) = p

-- `validateAmount(entry.amount)`, and the number that later steps read from the same string
unfoldable pub read_entry : EntryInput → Result LedgerError Entry
read_entry i =
    let unread = err (invalid_amount i.amount) in
    if validate_amount i.amount
    then elim (to_big_int i.amount) [
      | none ↦ unread
      | some x ↦ ok (record {
        account = i.account;
        asset = i.asset;
        direction = i.direction;
        amount = x;
        pool = pool_or_default i.balance_pool;
      })
    ]
    else unread

unfoldable pub read_entries : List EntryInput → Result LedgerError (List Entry)
read_entries [] = ok []
read_entries (i ∷ is) = do e ← read_entry i; es ← read_entries is; ok (e ∷ es)

-- The enforcement of step 0, which external-boundary types skip.
unfoldable pub enforce_balance : TxType → List Entry → Result LedgerError (Unit {0})
unfolding is_external_boundary
enforce_balance type es =
    if is_external_boundary type then ok tt else check_totals (per_asset_totals [] es)

unfoldable pub prepare_entries : TxType → List EntryInput → Result LedgerError (List Entry)
prepare_entries type [] = err transaction_failed
prepare_entries type (i ∷ is) = do
  es ← read_entries (i ∷ is)
  checked ← enforce_balance type es
  ok es

-- What happens before any row is read: no entries, a bad amount, or an unbalanced transaction.
unfoldable pub prepare : PostInput → Result LedgerError (List Entry)
unfolding prepare_entries
prepare input = prepare_entries input.transaction_type input.entries

-- `SELECT … FROM ledger_transactions WHERE account_id = $1 AND reference_id = $2`
unfoldable pub find_transaction : ℕ → ℕ → List LedgerTransaction → Option LedgerTransaction
find_transaction account reference [] = none
find_transaction account reference (t ∷ ts) =
    if t.account == account && t.reference == reference
    then some t
    else find_transaction account reference ts

abbrev pub result_entry : LedgerEntry → ResultEntry
result_entry e = record {
  direction = e.direction;
  asset = e.asset;
  amount = e.amount;
  balance_after = e.balance_after;
}

-- `SELECT … FROM ledger_entries WHERE transaction_id = $1`
unfoldable pub entries_of : ℕ → List LedgerEntry → List ResultEntry
entries_of id [] = []
entries_of id (e ∷ es) =
    if e.transaction_id == id then result_entry e ∷ entries_of id es else entries_of id es

abbrev pub posted_result : ℕ → PostInput → List ResultEntry → TransactionResult
posted_result id input rows = record {
  transaction_id = id;
  account = input.account;
  transaction_type = input.transaction_type;
  reference = input.reference;
  entries = rows;
}

-- Step 3: the working copy after every entry, or the first debit that is not covered.
unfoldable pub validate_entries : List Entry → List Wallet → Result LedgerError (List Wallet)
validate_entries [] working = ok working
validate_entries (e ∷ es) working = elim (find_wallet (entry_key e) working) [
  | none ↦ err missing_wallet
  | some w ↦ (do w' ← check_entry e w; validate_entries es (put_wallet w' working))
]

-- The row has what the arithmetic of decimal.ts makes of the amount; the column rounds a text of more
-- than eighteen decimals, but no caller passes one.
abbrev pub ledger_row : ℕ → Entry → Wallet → LedgerEntry
ledger_row id e w = record {
  transaction_id = id;
  account = e.account;
  asset = e.asset;
  direction = e.direction;
  amount = e.amount;
  balance_after = w.available +ℤ w.locked;
}

-- Step 5: `appliedBalances`, and the rows of ledger_entries in the order they are inserted.
unfoldable pub apply_entries :
    ℕ → List Entry → List Wallet → Result LedgerError (List Wallet × List LedgerEntry)
apply_entries id [] applied = ok (applied, [])
apply_entries id (e ∷ es) applied = elim (find_wallet (entry_key e) applied) [
  | none ↦ err missing_wallet
  | some w ↦ (do
    rest ← apply_entries id es (put_wallet (apply_entry e w) applied)
    ok (rest.0, ledger_row id e (apply_entry e w) ∷ rest.1))
]

-- Step 6.
unfoldable pub update_wallets : List Wallet → List Wallet → List Wallet
update_wallets [] table = table
update_wallets (w ∷ ws) table = update_wallets ws (update_row w table)

abbrev pub new_transaction : ℕ → PostInput → LedgerTransaction
new_transaction id input = record {
  id = id;
  account = input.account;
  transaction_type = input.transaction_type;
  reference = input.reference;
  description = input.description;
}

-- Steps 4 to 6, on the locked wallets and the tables after step 2.
abbrev pub commit_entries :
    ℕ → PostInput → List Entry → List Wallet → Db → Result LedgerError TransactionResult × Db
commit_entries id input es states db =
    let db' = record db { transactions = db.transactions ++ new_transaction id input ∷ [] } in
    elim (apply_entries id es states) [
      | err x ↦ (err x, db')
      | ok (applied, rows) ↦ (
        ok (posted_result id input (map result_entry rows)),
        record db' { wallets = update_wallets applied db'.wallets; entries = db'.entries ++ rows },
      )
    ]

-- `executeLogic`: what it throws leaves the rows that it has already written.
unfoldable pub execute_logic :
    ℕ → PostInput → List Entry → Db → Result LedgerError TransactionResult × Db
execute_logic id input es db =
    elim (find_transaction input.account input.reference db.transactions) [
      | some t ↦
          ite (TxType-discrete t.transaction_type input.transaction_type)
            (if t.description == input.description
              then (ok (posted_result t.id input (entries_of t.id db.entries)), db)
              else (err (reference_conflict input.reference), db))
            (err (reference_conflict input.reference), db)
      | none ↦
          let (states, table) = lock_wallets (sort_keys (wallet_keys [] es)) ([], db.wallets) in
          let db' = record db { wallets = table } in
          elim (validate_entries es states) [
            | err x ↦ (err x, db')
            | ok _ ↦ commit_entries id input es states db'
          ]
    ]

-- `database.transaction`: what throws is rolled back.
abbrev pub transaction :
    {A : Type 0} → (Db → Result LedgerError A × Db) → Db → Result LedgerError A × Db
transaction m db = let (r, db') = m db in elim r [ ok a ↦ (ok a, db') | err e ↦ (err e, db) ]

-- `postTransaction` in a transaction of its own; `id` is the fresh UUID.
unfoldable pub post_transaction : ℕ → PostInput → Db → Result LedgerError TransactionResult × Db
post_transaction id input db = elim (prepare input) [
  | err e ↦ (err e, db)
  | ok es ↦ transaction (execute_logic id input es) db
]
