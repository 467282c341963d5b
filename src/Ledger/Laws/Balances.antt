-- ===== src/Ledger/Laws/Balances.antt =====
-- The balances of the wallets after `postTransaction` (ledger.service.ts).
use mathlib.Core.Path.{subst}
use novacex.Prelude.{
  ℕ, ◌≡◌, refl, sym, ap, ◌∙◌, inl, inr, none, some, List, [], ◌∷◌, ◌++◌, map, arith, Option-cases,
}
use novacex.Prelude.Int.{ℤ, ◌+ℤ◌, +ℤ-zero}
use novacex.Ledger.{
  available, locked, Wallet, Entry, LedgerEntry, PostInput, Db, TransactionResult, ok, Result-cases,
}
use novacex.Ledger.Wallets.{Key, find_wallet, wallet_keys, sort_keys, lock_wallets}
use novacex.Ledger.Post.{
  prepare, find_transaction, validate_entries, apply_entries, update_wallets, result_entry,
  posted_result, new_transaction, execute_logic, post_transaction,
}
use novacex.Ledger.Laws.Maps.{
  States, Agrees, Unique, balance_of, balance-lock, lock-Agrees, lock-Unique,
}
use novacex.Ledger.Laws.Effect.{
  net, amounts-effect, net-missing, find-apply_entries, apply-Unique, find-update_wallets,
}

-- The balances of a wallet, moved by the entries on its key.
abbrev pub moved : Key → List Entry → ℤ × ℤ → ℤ × ℤ
moved k es b = (b.0 +ℤ net available k es, b.1 +ℤ net locked k es)

after-present :
    (k : Key) (s : States) (w : Wallet)
    → Agrees s.0 s.1
    → find_wallet k s.0 ≡ some w
    → find_wallet k s.1 ≡ some w
after-present k s w agree found = ground (arith, agree k)

-- Steps 5 and 6 together, on the map and the table of step 2.
pub balance-commit :
    (k : Key) (id : ℕ) (es : List Entry) (s : States) {r : List Wallet × List LedgerEntry}
    → Agrees s.0 s.1
    → Unique s.0
    → apply_entries id es s.0 ≡ ok r
    → balance_of (find_wallet k (update_wallets r.0 s.1))
      ≡ moved k es (balance_of (find_wallet k s.1))
balance-commit k id es s {r} agree unique done =
    let at_key = find-apply_entries k id es s.0 done in
    let written =
      find-update_wallets k r.0 s.1 (apply-Unique id es s.0 done unique)
        (λ w e n. ground (arith, at_key, agree k)) in
    elim (Option-cases (find_wallet k s.0)) [
      | inl missing ↦ ground (
        arith,
        written,
        at_key,
        net-missing available k id es s.0 done missing,
        net-missing locked k id es s.0 done missing,
        +ℤ-zero (balance_of (find_wallet k s.1)).0,
        +ℤ-zero (balance_of (find_wallet k s.1)).1,
      )
      | inr (w, found) ↦
          ground (arith, written, at_key, amounts-effect k es w, after-present k s w agree found)
    ]

-- The map and the table after step 2.
abbrev pub locked_states : List Entry → Db → States
locked_states es db = lock_wallets (sort_keys (wallet_keys [] es)) ([], db.wallets)

pub locked-Agrees :
    (es : List Entry) (db : Db) → Agrees (locked_states es db).0 (locked_states es db).1
locked-Agrees es db = lock-Agrees (sort_keys (wallet_keys [] es)) ([], db.wallets) (λ j. inl refl)

pub locked-Unique : (es : List Entry) (db : Db) → Unique (locked_states es db).0
locked-Unique es db = lock-Unique (sort_keys (wallet_keys [] es)) ([], db.wallets) tt

-- A new reference that is posted: the steps that succeeded, and the tables they leave.
pub record Committed (id : ℕ) (input : PostInput) (es : List Entry) (db : Db)
    (r : TransactionResult) (db' : Db) : Type 0 where
  pub working : List Wallet
  pub applied : List Wallet × List LedgerEntry
  pub validated : validate_entries es (locked_states es db).0 ≡ ok working
  pub applied_all : apply_entries id es (locked_states es db).0 ≡ ok applied
  pub result : r ≡ posted_result id input (map result_entry applied.1)
  pub tables : db' ≡ record {
    wallets = update_wallets applied.0 (locked_states es db).1;
    transactions = db.transactions ++ new_transaction id input ∷ [];
    entries = db.entries ++ applied.1;
  }

-- Running the steps on a new reference succeeds only by committing.
pub execute-Committed :
    (id : ℕ) (input : PostInput) (es : List Entry) (db : Db) {r : TransactionResult}
    → find_transaction input.account input.reference db.transactions ≡ none
    → (execute_logic id input es db).0 ≡ ok r
    → Committed id input es db r (execute_logic id input es db).1
unfolding execute_logic
execute-Committed id input es db new h =
    elim (Result-cases (validate_entries es (locked_states es db).0)) [
      | inr (e, bad) ↦ ground arith
      | inl (working, good) ↦ elim (Result-cases (apply_entries id es (locked_states es db).0)) [
        | inr (e, bad) ↦ ground arith
        | inl (applied, done) ↦ record {
          working = working;
          applied = applied;
          validated = good;
          applied_all = done;
          result = ground arith;
          tables = ground arith;
        }
      ]
    ]

-- A post that succeeds keeps what its steps wrote.
post-ok :
    (id : ℕ) (input : PostInput) (es : List Entry) (db : Db) {r : TransactionResult}
    → prepare input ≡ ok es
    → (post_transaction id input db).0 ≡ ok r
    → ((execute_logic id input es db).0 ≡ ok r)
      × ((post_transaction id input db).1 ≡ (execute_logic id input es db).1)
unfolding post_transaction
post-ok id input es db prepared h = ground arith

-- Under a new reference, a post that succeeds runs its steps and keeps what they wrote.
pub post-Committed :
    (id : ℕ) (input : PostInput) (es : List Entry) (db : Db) {r : TransactionResult}
    → prepare input ≡ ok es
    → find_transaction input.account input.reference db.transactions ≡ none
    → (post_transaction id input db).0 ≡ ok r
    → Committed id input es db r (post_transaction id input db).1
unfolding post_transaction
post-Committed id input es db {r} prepared new h =
    let (done, same) = post-ok id input es db prepared h in
    subst (λ d. Committed id input es db r d) (sym same) (execute-Committed id input es db new done)

-- When a transaction with a new reference is posted, every wallet's available and locked balance
-- is what it was, plus the credits and minus the debits of the entries on that wallet and pool.
pub post_transaction_balances :
    (id : ℕ) (input : PostInput) (es : List Entry) (db : Db) (r : TransactionResult) (k : Key)
    → prepare input ≡ ok es
    → find_transaction input.account input.reference db.transactions ≡ none
    → (post_transaction id input db).0 ≡ ok r
    → balance_of (find_wallet k (post_transaction id input db).1.wallets)
      ≡ moved k es (balance_of (find_wallet k db.wallets))
post_transaction_balances id input es db r k prepared new h =
    let c = post-Committed id input es db prepared new h in
    rw c.tables (
      balance-commit k id es (locked_states es db) (locked-Agrees es db) (locked-Unique es db)
        c.applied_all
      ∙ ap (moved k es) (balance-lock k (sort_keys (wallet_keys [] es)) ([], db.wallets)))
