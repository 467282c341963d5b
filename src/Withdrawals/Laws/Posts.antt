-- ===== src/Withdrawals/Laws/Posts.antt =====
-- What the posts of a withdrawal (withdrawal.service.ts) do to the locked balance of a wallet.
use novacex.Prelude.{
  ℕ, ◌≡◌, ◌≢◌, refl, ap, ◌∙◌, inl, inr, none, List, [], ◌∷◌, ◌++◌, map, arith, if◌then◌else◌,
  Bool-cases,
}
use novacex.Prelude.Int.{ℤ, pos, ◌-ℤ◌, int_laws}
use novacex.Prelude.Result.{>>=_passed, Result-cases}
use novacex.Decimal.{from_big_int}
use novacex.Decimal.Ops.{validate_amount}
use novacex.Decimal.RoundTrip.{to_big_int-from_big_int}
use novacex.Ledger.{
  LedgerError, LedgerTransaction, TxType, Entry, PostInput, Db, TransactionResult, locked, Result,
  ok, err,
}
use novacex.Ledger.Wallets.{Key, key_eq, find_wallet}
use novacex.Ledger.Post.{
  read_entry, read_entries, prepare, prepare_entries, enforce_balance, find_transaction,
  new_transaction, post_transaction,
}
use novacex.Ledger.Laws.Maps.{balance_of}
use novacex.Ledger.Laws.Effect.{net}
use novacex.Ledger.Laws.Balances.{moved, post_transaction_balances, post-Committed}
use novacex.Withdrawals.{Withdrawal, Store, posted_in}
use novacex.Withdrawals.Funds.{
  entry_input, post_of, reserve_entries, release_entries, settlement_entries, fee_entries,
  system_vault,
}

-- A call of the ledger that succeeds.
pub posted_ok :
    (x : Store) (m : Result LedgerError TransactionResult × Db) {r : ℕ × Store}
    → posted_in x m ≡ ok r
    → ((t : TransactionResult) × (m.0 ≡ ok t)) × (r.1 ≡ record x { db = m.1 })
posted_ok x (err e, db) h = absurd (ground arith)
posted_ok x (ok t, db) h = ((t, refl), cc)

read-to_input : (e : Entry) {f : Entry} → read_entry (entry_input e) ≡ ok f → f ≡ e
unfolding read_entry
read-to_input e h = elim (Bool-cases (validate_amount (from_big_int e.amount))) [
  | inl valid ↦ ground (arith, to_big_int-from_big_int e.amount)
  | inr bad ↦ absurd (ground arith)
]

pub read_all :
    (es : List Entry) {fs : List Entry} → read_entries (map entry_input es) ≡ ok fs → fs ≡ es
unfolding read_entries
read_all [] h = cc
read_all (e ∷ es) {fs} h =
    let (f, first, rest) = >>=_passed (read_entry (entry_input e)) _ h in
    let (gs, others, last) = >>=_passed (read_entries (map entry_input es)) _ rest in
    let here = read-to_input e first in
    let there = read_all es others in
    let both : ◌≡◌ {A = Result LedgerError (List Entry)} (ok (f ∷ gs)) (ok fs) = last in cc

-- The entries that the ledger reads are those that were written.
pub prepare_all :
    (account reference description : ℕ) (type : TxType) (es : List Entry) {fs : List Entry}
    → prepare (post_of account type reference description es) ≡ ok fs
    → fs ≡ es
unfolding prepare prepare_entries
prepare_all account reference description type [] h = absurd (ground arith)
prepare_all account reference description type (e ∷ es) {fs} h =
    let (gs, read, rest) = >>=_passed (read_entries (map entry_input (e ∷ es))) _ h in
    let (_, checked, last) = >>=_passed (enforce_balance type gs) _ rest in
    let both : ◌≡◌ {A = Result LedgerError (List Entry)} (ok gs) (ok fs) = last in
    let same = read_all (e ∷ es) read in cc

pub prepared :
    (id : ℕ) (input : PostInput) (db : Db) {r : TransactionResult}
    → (post_transaction id input db).0 ≡ ok r
    → (es : List Entry) × (prepare input ≡ ok es)
unfolding post_transaction
prepared id input db h = elim (Result-cases (prepare input)) [
  | inl found ↦ found
  | inr (e, bad) ↦ absurd (ground arith)
]

find_other :
    (owner other : ℕ) (t : LedgerTransaction) (ts : List LedgerTransaction)
    → other ≢ t.reference
    → find_transaction owner other ts ≡ none
    → find_transaction owner other (ts ++ t ∷ []) ≡ none
unfolding find_transaction
find_other owner other t [] ne h = ground arith
find_other owner other t (s ∷ ss) ne h = ground (arith, find_other owner other t ss ne)

module _ (id account reference description : ℕ) (type : TxType) (es : List Entry) (x : Store)
    {r : ℕ × Store} (unused : find_transaction account reference x.db.transactions ≡ none)
    (done : posted_in x (post_transaction id (post_of account type reference description es) x.db)
      ≡ ok r) where
  -- The ledger's tables after a post, by its entries as they were written.
  pub post_of_moves :
      (k : Key)
      → (balance_of (find_wallet k r.1.db.wallets)
          ≡ moved k es (balance_of (find_wallet k x.db.wallets)))
        × (r.1.withdrawals ≡ x.withdrawals)
        × (r.1.networks ≡ x.networks)
  post_of_moves k =
      let input = post_of account type reference description es in
      let ((t, good), same) = posted_ok x (post_transaction id input x.db) done in
      let (fs, read) = prepared id input x.db good in
      let exact = prepare_all account reference description type es read in
      (
        ap (λ z. balance_of (find_wallet k z.db.wallets)) same
            ∙ post_transaction_balances id input es x.db t k (read ∙ ap ok exact) unused good,
        ap (λ z. z.withdrawals) same,
        ap (λ z. z.networks) same,
      )

  -- The transactions after a post, but for the new one, are those before.
  pub post_of_leaves :
      (owner other : ℕ)
      → other ≢ reference
      → find_transaction owner other x.db.transactions ≡ none
      → find_transaction owner other r.1.db.transactions ≡ none
  post_of_leaves owner other ne none_before =
      let input = post_of account type reference description es in
      let ((t, good), same) = posted_ok x (post_transaction id input x.db) done in
      let (fs, read) = prepared id input x.db good in
      let c = post-Committed id input fs x.db read unused good in
      ap (λ z. find_transaction owner other z.db.transactions) same
      ∙ ap (λ d. find_transaction owner other d.transactions) c.tables
      ∙ find_other owner other (new_transaction id input) x.db.transactions ne none_before

abbrev pub locked_at : Key → Store → ℤ
locked_at k x = (balance_of (find_wallet k x.db.wallets)).1

pub net-release :
    (k : Key) (account asset : ℕ) (total : ℤ)
    → net locked k (release_entries account asset total)
      ≡ (if key_eq (account, asset) k then pos 0 -ℤ total else pos 0)
unfolding net
net-release k account asset total = elim (Bool-cases (key_eq (account, asset) k)) [
  | inl e ↦ rw e (omega int_laws)
  | inr e ↦ rw e (omega int_laws)
]

pub net-reserve :
    (k : Key) (account asset : ℕ) (total : ℤ)
    → net locked k (reserve_entries account asset total)
      ≡ (if key_eq (account, asset) k then total else pos 0)
unfolding net
net-reserve k account asset total = elim (Bool-cases (key_eq (account, asset) k)) [
  | inl e ↦ rw e (omega int_laws)
  | inr e ↦ rw e (omega int_laws)
]

pub net-settle :
    (k : Key) (w : Withdrawal)
    → net locked k (settlement_entries w)
      ≡ (if key_eq (w.account, w.asset) k then pos 0 -ℤ w.amount else pos 0)
unfolding net
net-settle k w = elim (Bool-cases (key_eq (w.account, w.asset) k)) [
  | inl e ↦ rw e (omega int_laws)
  | inr e ↦ rw e (omega int_laws)
]

pub net-fee :
    (k : Key) (w : Withdrawal)
    → net locked k (fee_entries w)
      ≡ (if key_eq (w.account, w.asset) k then pos 0 -ℤ w.fee else pos 0)
unfolding net
net-fee k w = elim (Bool-cases (key_eq (w.account, w.asset) k)) [
  | inl e ↦ rw e (elim (Bool-cases (key_eq (system_vault, w.asset) k)) [
    | inl f ↦ rw f (omega int_laws)
    | inr f ↦ rw f (omega int_laws)
  ])
  | inr e ↦ rw e (elim (Bool-cases (key_eq (system_vault, w.asset) k)) [
    | inl f ↦ rw f (omega int_laws)
    | inr f ↦ rw f (omega int_laws)
  ])
]
