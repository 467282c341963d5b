-- ===== src/Ledger/Laws/Cover.antt =====
-- The check of every debit in `postTransaction` (ledger.service.ts), and balances below zero.
use mathlib.Core.Path.{subst}
use novacex.Prelude.{
  ℕ, ◌≡◌, sym, ap, ◌⊎◌, inl, inr, Bool, true, Option, none, some, Option-cases, Bool-cases, List,
  [], ◌∷◌, ◌++◌, arith, if◌then◌else◌, All, All-append,
}
use novacex.Prelude.Int.{pos, ◌≤ℤ◌, +ℤ_parts, -ℤ_parts}
use novacex.Decimal.Ops.{validate_amount}
use novacex.Decimal.Validate.{validate_amount_iff}
use novacex.Ledger.{
  LedgerError, Result, TxType, EntryInput, Wallet, Entry, LedgerEntry, PostInput, Db,
  TransactionResult, ok, >>=_passed,
}
use novacex.Ledger.Wallets.{
  Key, key_eq, key_of, entry_key, zero_wallet, find_wallet, put_wallet, update_row, lock_row,
  lock_wallets, sort_keys, wallet_keys, suspense_account, apply_entry, check_entry,
}
use novacex.Ledger.Post.{
  read_entry, read_entries, prepare, prepare_entries, enforce_balance, find_transaction,
  validate_entries, apply_entries, update_wallets, post_transaction,
}
use novacex.Ledger.Laws.Maps.{States, find-key}
use novacex.Ledger.Laws.Effect.{apply_entries-cons}
use novacex.Ledger.Laws.Balances.{post-Committed, locked_states}

-- A wallet in credit.
abbrev pub IsCovered : Wallet → Type 0
IsCovered w = (pos 0 ≤ℤ w.locked) × ((w.account ≡ suspense_account) ⊎ (pos 0 ≤ℤ w.available))

-- A debit that passes the check leaves the wallet in credit, and is the one that step 5 makes.
check_entry-covers :
    (e : Entry) (w : Wallet) {w' : Wallet}
    → check_entry e w ≡ ok w'
    → e.account ≡ w.account
    → pos 0 ≤ℤ e.amount
    → IsCovered w
    → IsCovered w' × (w' ≡ apply_entry e w)
unfolding check_entry apply_entry
check_entry-covers e w h same positive covered = ground (
  arith,
  +ℤ_parts w.available e.amount,
  -ℤ_parts w.available e.amount,
  +ℤ_parts w.locked e.amount,
  -ℤ_parts w.locked e.amount,
)

found_first :
    (o : Option Wallet) {b : Bool} {v w : Wallet}
    → b ≡ true
    → (if b then some v else o) ≡ some w
    → v ≡ w
found_first o h found = ground arith

find-IsCovered :
    (k : Key) (ws : List Wallet) {w : Wallet}
    → All IsCovered ws
    → find_wallet k ws ≡ some w
    → IsCovered w
find-IsCovered k [] h found = cc
find-IsCovered k (v ∷ vs) {w} h found = elim (Bool-cases (key_eq (key_of v) k)) [
  | inl e ↦ subst IsCovered (found_first (find_wallet k vs) e found) h.0
  | inr e ↦ find-IsCovered k vs h.1 (rw e at found)
]

put-IsCovered :
    (w : Wallet) (ws : List Wallet)
    → IsCovered w
    → All IsCovered ws
    → All IsCovered (put_wallet w ws)
unfolding put_wallet
put-IsCovered w [] c h = (c, tt)
put-IsCovered w (v ∷ vs) c h = elim (Bool-cases (key_eq (key_of v) (key_of w))) [
  | inl e ↦ rw e (c, h.1)
  | inr e ↦ rw e (h.0, put-IsCovered w vs c h.1)
]

update-IsCovered :
    (w : Wallet) (ws : List Wallet)
    → IsCovered w
    → All IsCovered ws
    → All IsCovered (update_row w ws)
unfolding update_row
update-IsCovered w [] c h = tt
update-IsCovered w (v ∷ vs) c h = elim (Bool-cases (key_eq (key_of v) (key_of w))) [
  | inl e ↦ rw e (c, update-IsCovered w vs c h.1)
  | inr e ↦ rw e (h.0, update-IsCovered w vs c h.1)
]

zero-IsCovered : (k : Key) → IsCovered (zero_wallet k)
zero-IsCovered k = ground arith

abbrev BothCovered : States → Type 0
BothCovered s = All IsCovered s.0 × All IsCovered s.1

lock_row_new :
    (k : Key) (s : States)
    → find_wallet k s.1 ≡ none
    → lock_row k s ≡ (put_wallet (zero_wallet k) s.0, s.1 ++ zero_wallet k ∷ [])
unfolding lock_row
lock_row_new k s e = ground arith

lock_row_old :
    (k : Key) (s : States) (w : Wallet)
    → find_wallet k s.1 ≡ some w
    → lock_row k s ≡ (put_wallet w s.0, s.1)
unfolding lock_row
lock_row_old k s w e = ground arith

lock_row-covered : (k : Key) (s : States) → BothCovered s → BothCovered (lock_row k s)
lock_row-covered k s h = elim (Option-cases (find_wallet k s.1)) [
  | inl e ↦ subst BothCovered (sym (lock_row_new k s e)) (
    put-IsCovered (zero_wallet k) s.0 (zero-IsCovered k) h.0,
    All-append IsCovered s.1 (zero_wallet k ∷ []) h.1 (zero-IsCovered k, tt),
  )
  | inr (w, e) ↦
      subst BothCovered (sym (lock_row_old k s w e))
        (put-IsCovered w s.0 (find-IsCovered k s.1 h.1 e) h.0, h.1)
]

lock-covered : (ks : List Key) (s : States) → BothCovered s → BothCovered (lock_wallets ks s)
unfolding lock_wallets
lock-covered [] s h = h
lock-covered (k ∷ ks) s h = lock-covered ks (lock_row k s) (lock_row-covered k s h)

nothing_applied :
    (id : ℕ) (ws : List Wallet) {r : List Wallet × List LedgerEntry}
    → apply_entries id [] ws ≡ ok r
    → ws ≡ r.0
unfolding apply_entries
nothing_applied id ws h = cc

validate_entries-cons :
    (e : Entry) (es : List Entry) (ws : List Wallet) (w : Wallet) {working : List Wallet}
    → validate_entries (e ∷ es) ws ≡ ok working
    → find_wallet (entry_key e) ws ≡ some w
    → (w' : Wallet) × (check_entry e w ≡ ok w')
      × (validate_entries es (put_wallet w' ws) ≡ ok working)
unfolding validate_entries
validate_entries-cons e es ws w h found =
    >>=_passed (check_entry e w) _ (rw (found, validate_entries) at h)

-- Step 5 makes the wallets that step 3 tried out, all in credit.
validate-covers :
    (id : ℕ) (es : List Entry) (ws : List Wallet) {working : List Wallet}
    {r : List Wallet × List LedgerEntry}
    → validate_entries es ws ≡ ok working
    → apply_entries id es ws ≡ ok r
    → All (λ e. pos 0 ≤ℤ e.amount) es
    → All IsCovered ws
    → All IsCovered r.0
validate-covers id [] ws checked done positive h =
    subst (All IsCovered) (nothing_applied id ws done) h
validate-covers id (e ∷ es) ws {working} checked done positive h =
    let (w, rest, found, more, last) = apply_entries-cons id e es ws done in
    let (w', passed, checked_more) = validate_entries-cons e es ws w checked found in
    let (covered, same) =
      check_entry-covers e w passed (sym (ap (λ k. k.0) (find-key (entry_key e) w ws found)))
        positive.0 (find-IsCovered (entry_key e) ws h found) in
    subst (λ t. All IsCovered t.0) (sym last)
      (validate-covers id es (put_wallet (apply_entry e w) ws)
        (subst (λ v. validate_entries es (put_wallet v ws) ≡ ok working) same checked_more) more
        positive.1 (put-IsCovered (apply_entry e w) ws (subst IsCovered same covered) h))

update_wallets-IsCovered :
    (ws table : List Wallet)
    → All IsCovered ws
    → All IsCovered table
    → All IsCovered (update_wallets ws table)
unfolding update_wallets
update_wallets-IsCovered [] table h t = t
update_wallets-IsCovered (w ∷ ws) table h t =
    update_wallets-IsCovered ws (update_row w table) h.1 (update-IsCovered w table h.0 t)

ok_entries : {r s : List Entry} → ◌≡◌ {A = Result LedgerError (List Entry)} (ok r) (ok s) → r ≡ s
ok_entries h = cc

-- A string that passes `validateAmount` is read as a positive amount.
read_entry_positive : (i : EntryInput) {e : Entry} → read_entry i ≡ ok e → pos 0 ≤ℤ e.amount
unfolding read_entry
read_entry_positive i {e} h = elim (Bool-cases (validate_amount i.amount)) [
  | inr bad ↦ ground arith
  | inl good ↦ let (v, read, positive) = (validate_amount_iff i.amount).0 good in ground arith
]

read_entries_positive :
    (is : List EntryInput) {es : List Entry}
    → read_entries is ≡ ok es
    → All (λ e. pos 0 ≤ℤ e.amount) es
unfolding read_entries
read_entries_positive [] {es} h = subst (All (λ e. pos 0 ≤ℤ e.amount)) (ok_entries h) tt
read_entries_positive (i ∷ is) h =
    let (e, one_read, more) = >>=_passed (read_entry i) _ h in
    let (es, rest, same) = >>=_passed (read_entries is) _ more in
    subst (All (λ e. pos 0 ≤ℤ e.amount)) (ok_entries same)
      (read_entry_positive i one_read, read_entries_positive is rest)

prepare_positive :
    (type : TxType) (is : List EntryInput) {es : List Entry}
    → prepare_entries type is ≡ ok es
    → All (λ e. pos 0 ≤ℤ e.amount) es
unfolding prepare_entries
prepare_positive type [] h = cc
prepare_positive type (i ∷ is) h =
    let (es, read, more) = >>=_passed (read_entries (i ∷ is)) _ h in
    let (checked, passed, same) = >>=_passed (enforce_balance type es) _ more in
    subst (All (λ e. pos 0 ≤ℤ e.amount)) (ok_entries same) (read_entries_positive (i ∷ is) read)

-- If no balance is below zero, other than available balances of the ADL suspense account, then none is
-- after a transaction with a new reference is posted.
pub post_transaction-IsCovered :
    (id : ℕ) (input : PostInput) (es : List Entry) (db : Db) (r : TransactionResult)
    → prepare input ≡ ok es
    → find_transaction input.account input.reference db.transactions ≡ none
    → (post_transaction id input db).0 ≡ ok r
    → All IsCovered db.wallets
    → All IsCovered (post_transaction id input db).1.wallets
post_transaction-IsCovered id input es db r prepared new posted h =
    let c = post-Committed id input es db prepared new posted in
    let (states, table) = lock-covered (sort_keys (wallet_keys [] es)) ([], db.wallets) (tt, h) in
    subst (λ d. All IsCovered d.wallets) (sym c.tables)
      (update_wallets-IsCovered c.applied.0 (locked_states es db).1
        (validate-covers id es (locked_states es db).0 c.validated c.applied_all
          (prepare_positive input.transaction_type input.entries (unfold prepare in prepared))
          states)
        table)
