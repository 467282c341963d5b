-- ===== src/Ledger/Laws/Replay.antt =====
-- The idempotency check of `postTransaction` (ledger.service.ts).
use novacex.Prelude.{
  ℕ, ◌≡◌, refl, sym, ap, ◌∙◌, ◌≢◌, ◌⊎◌, inl, inr, none, some, List, [], ◌∷◌, ◌++◌, map, arith, ◌==◌,
  Bool-cases, ==_refl,
}
use novacex.Ledger.{
  Wallet, Entry, LedgerTransaction, LedgerEntry, PostInput, Db, ResultEntry, TransactionResult,
  reference_conflict, ok, err,
}
use novacex.Ledger.Wallets.{put_wallet, apply_entry}
use novacex.Ledger.Post.{
  prepare, find_transaction, result_entry, entries_of, ledger_row, apply_entries, posted_result,
  new_transaction, execute_logic, post_transaction,
}
use novacex.Ledger.Laws.Effect.{apply_entries-cons, nothing_written}
use novacex.Ledger.Laws.Balances.{post-Committed, locked_states}

-- Under a reference that is taken, a post with the same type and description gives the stored
-- result.
pub post_again :
    (id : ℕ) (input : PostInput) (es : List Entry) (db : Db) (t : LedgerTransaction)
    → prepare input ≡ ok es
    → find_transaction input.account input.reference db.transactions ≡ some t
    → t.transaction_type ≡ input.transaction_type
    → t.description ≡ input.description
    → post_transaction id input db
      ≡ (ok (posted_result t.id input (entries_of t.id db.entries)), db)
unfolding post_transaction execute_logic
post_again id input es db t prepared found same_type same_text = ground arith

-- Under a reference that is taken by a transaction of another type or description, a post is
-- refused as a conflict and changes nothing.
pub post_transaction_conflict :
    (id : ℕ) (input : PostInput) (es : List Entry) (db : Db) (t : LedgerTransaction)
    → prepare input ≡ ok es
    → find_transaction input.account input.reference db.transactions ≡ some t
    → (t.transaction_type ≢ input.transaction_type) ⊎ (t.description ≢ input.description)
    → post_transaction id input db ≡ (err (reference_conflict input.reference), db)
unfolding post_transaction execute_logic
post_transaction_conflict id input es db t prepared found other = ground arith

find-new_transaction :
    (id : ℕ) (input : PostInput) (ts : List LedgerTransaction)
    → find_transaction input.account input.reference ts ≡ none
    → find_transaction input.account input.reference (ts ++ new_transaction id input ∷ [])
      ≡ some (new_transaction id input)
unfolding find_transaction
find-new_transaction id input [] h = ground arith
find-new_transaction id input (t ∷ ts) h = ground (arith, find-new_transaction id input ts)

entries_of-append :
    (id : ℕ) (xs ys : List LedgerEntry)
    → entries_of id (xs ++ ys) ≡ entries_of id xs ++ entries_of id ys
unfolding entries_of
entries_of-append id [] ys = refl
entries_of-append id (x ∷ xs) ys = elim (Bool-cases (x.transaction_id == id)) [
  | inl e ↦ rw (e, entries_of-append id xs ys)
  | inr e ↦ rw (e, entries_of-append id xs ys)
]

-- Step 5 writes every row under the transaction's own identifier.
entries_of-applied :
    (id : ℕ) (es : List Entry) (ws : List Wallet) {r : List Wallet × List LedgerEntry}
    → apply_entries id es ws ≡ ok r
    → entries_of id r.1 ≡ map result_entry r.1
unfolding entries_of
entries_of-applied id [] ws h = ground (arith, nothing_written id ws h)
entries_of-applied id (e ∷ es) ws h =
    let (w, rest, found, more, last) = apply_entries-cons id e es ws h in
    rw last (
      rw (==_refl id) (
        ap (λ l. result_entry (ledger_row id e (apply_entry e w)) ∷ l)
          (entries_of-applied id es (put_wallet (apply_entry e w) ws) more)))

replay :
    (id id' : ℕ) (input : PostInput) (es : List Entry) (db : Db) (rows : List ResultEntry)
    → prepare input ≡ ok es
    → find_transaction input.account input.reference db.transactions
      ≡ some (new_transaction id input)
    → entries_of id db.entries ≡ rows
    → post_transaction id' input db ≡ (ok (posted_result id input rows), db)
replay id id' input es db rows prepared found stored =
    post_again id' input es db (new_transaction id input) prepared found refl refl
    ∙ ap (λ l. (ok (posted_result id input l), db)) stored

-- Posting the same input again, under any fresh identifier, gives the result of the first post and
-- changes nothing, so a retried request moves no funds. (The first identifier was fresh: no row
-- of ledger_entries carried it.)
pub post_transaction_idempotent :
    (id id' : ℕ) (input : PostInput) (es : List Entry) (db : Db) (r : TransactionResult)
    → prepare input ≡ ok es
    → find_transaction input.account input.reference db.transactions ≡ none
    → entries_of id db.entries ≡ []
    → (post_transaction id input db).0 ≡ ok r
    → post_transaction id' input (post_transaction id input db).1
      ≡ (ok r, (post_transaction id input db).1)
post_transaction_idempotent id id' input es db r prepared new fresh posted =
    let c = post-Committed id input es db prepared new posted in
    let again = find-new_transaction id input db.transactions new in
    let rows =
      entries_of-append id db.entries c.applied.1
      ∙ ap (λ l. l ++ entries_of id c.applied.1) fresh
      ∙ entries_of-applied id es (locked_states es db).0 c.applied_all in
    replay id id' input es (post_transaction id input db).1 (map result_entry c.applied.1) prepared
      (ap (λ d. find_transaction input.account input.reference d.transactions) c.tables ∙ again)
      (ap (λ d. entries_of id d.entries) c.tables ∙ rows)
    ∙ ap (λ x. (ok x, (post_transaction id input db).1)) (sym c.result)
