-- ===== src/Ledger/Laws/Movements.antt =====
-- `reserve`, `release` and `transfer` (ledger.service.ts).
use novacex.Prelude.{
  ℕ, ◌≡◌, ◌∙◌, ◌≢◌, true, false, none, some, inl, inr, List, [], ◌∷◌, arith, if◌then◌else◌,
  Bool-cases, ==_refl,
}
use novacex.Prelude.Int.{ℤ, pos, ◌+ℤ◌, ◌-ℤ◌, int_laws, eqb_ℤ_refl}
use novacex.Decimal.{to_big_int}
use novacex.Decimal.Ops.{validate_amount}
use novacex.Ledger.{
  internal_transfer, Direction, credit, debit, Pool, available, locked, Entry, Db,
  TransactionResult, ok,
}
use novacex.Ledger.Wallets.{Key, key_eq, find_wallet}
use novacex.Ledger.Totals.{per_asset_totals, check_totals}
use novacex.Ledger.Post.{
  read_entry, read_entries, prepare, prepare_entries, enforce_balance, find_transaction,
}
use novacex.Ledger.Service.{Movement, leg, input_of, validated, reserve, release, transfer}
use novacex.Ledger.Laws.Maps.{balance_of}
use novacex.Ledger.Laws.Effect.{net}
use novacex.Ledger.Laws.Balances.{moved, post_transaction_balances}

abbrev entry_of : ℕ → Movement → Direction → Pool → ℤ → Entry
entry_of a m d p x = record { account = a; asset = m.asset; direction = d; amount = x; pool = p }

-- One amount, off one wallet's pool and onto another's.
abbrev pair_of : ℕ → ℕ → Movement → Pool → Pool → ℤ → List Entry
pair_of a b m p q x = entry_of a m debit p x ∷ entry_of b m credit q x ∷ []

read_leg :
    (a : ℕ) (m : Movement) (d : Direction) (p : Pool) (x : ℤ)
    → to_big_int m.amount ≡ some x
    → validate_amount m.amount ≡ true
    → read_entry (leg a m d p) ≡ ok (entry_of a m d p x)
unfolding read_entry
read_leg a m d p x read valid = ground arith

pair_balances :
    (a b : ℕ) (m : Movement) (p q : Pool) (x : ℤ)
    → enforce_balance m.transaction_type (pair_of a b m p q x) ≡ ok tt
unfolding enforce_balance per_asset_totals check_totals
pair_balances a b m p q x = ground (arith, eqb_ℤ_refl (pos 0 +ℤ x), ==_refl m.asset)

prepare_pair :
    (a b : ℕ) (m : Movement) (p q : Pool) (x : ℤ)
    → to_big_int m.amount ≡ some x
    → validate_amount m.amount ≡ true
    → prepare (input_of m (leg a m debit p ∷ leg b m credit q ∷ [])) ≡ ok (pair_of a b m p q x)
unfolding prepare read_entries
prepare_pair a b m p q x read valid = rw (
  prepare_entries,
  read_leg a m debit p x read valid,
  read_leg b m credit q x read valid,
  pair_balances a b m p q x,
)

-- A validated movement posts its two legs.
validated_pair :
    (id a b : ℕ) (m : Movement) (p q : Pool) (db : Db) (r : TransactionResult) (x : ℤ) (k : Key)
    → to_big_int m.amount ≡ some x
    → find_transaction m.account m.reference db.transactions ≡ none
    → let after = validated id m (leg a m debit p ∷ leg b m credit q ∷ []) db in
      after.0 ≡ ok r
      → balance_of (find_wallet k after.1.wallets)
        ≡ moved k (pair_of a b m p q x) (balance_of (find_wallet k db.wallets))
unfolding validated
validated_pair id a b m p q db r x k read new h = elim (Bool-cases (validate_amount m.amount)) [
  | inr bad ↦ ground arith
  | inl valid ↦
      let input = input_of m (leg a m debit p ∷ leg b m credit q ∷ []) in
      ground (
        arith,
        post_transaction_balances id input (pair_of a b m p q x) db r k
            (prepare_pair a b m p q x read valid) new,
      )
]

pair_eq : {a b c d : ℤ} → a ≡ c → b ≡ d → ◌≡◌ {A = ℤ × ℤ} (a, b) (c, d)
pair_eq p q i = (p i, q i)

moved-reserve :
    (k : Key) (m : Movement) (x : ℤ) (b : ℤ × ℤ)
    → moved k (pair_of m.account m.account m available locked x) b
      ≡ (if key_eq (m.account, m.asset) k then (b.0 -ℤ x, b.1 +ℤ x) else b)
unfolding net
moved-reserve k m x b = elim (Bool-cases (key_eq (m.account, m.asset) k)) [
  | inl e ↦ rw e (pair_eq (omega int_laws) (omega int_laws))
  | inr e ↦ rw e (pair_eq (omega int_laws) (omega int_laws))
]

moved-release :
    (k : Key) (m : Movement) (x : ℤ) (b : ℤ × ℤ)
    → moved k (pair_of m.account m.account m locked available x) b
      ≡ (if key_eq (m.account, m.asset) k then (b.0 +ℤ x, b.1 -ℤ x) else b)
unfolding net
moved-release k m x b = elim (Bool-cases (key_eq (m.account, m.asset) k)) [
  | inl e ↦ rw e (pair_eq (omega int_laws) (omega int_laws))
  | inr e ↦ rw e (pair_eq (omega int_laws) (omega int_laws))
]

other_key : (a b s : ℕ) (k : Key) → a ≢ b → key_eq (a, s) k ≡ true → key_eq (b, s) k ≡ false
other_key a b s k ne h = ground arith

moved-transfer :
    (k : Key) (m : Movement) (to : ℕ) (x : ℤ) (b : ℤ × ℤ)
    → m.account ≢ to
    → moved k (pair_of m.account to m available available x) b ≡ (
      if key_eq (m.account, m.asset) k
          then b.0 -ℤ x
          else if key_eq (to, m.asset) k
          then b.0 +ℤ x
          else b.0,
      b.1,
    )
unfolding net
moved-transfer k m to x b ne = elim (Bool-cases (key_eq (m.account, m.asset) k)) [
  | inl e ↦
      rw (e, other_key m.account to m.asset k ne e) (pair_eq (omega int_laws) (omega int_laws))
  | inr e ↦ rw e (elim (Bool-cases (key_eq (to, m.asset) k)) [
    | inl f ↦ rw f (pair_eq (omega int_laws) (omega int_laws))
    | inr f ↦ rw f (pair_eq (omega int_laws) (omega int_laws))
  ])
]

-- A reservation that is posted under a new reference takes its amount from the wallet's available
-- balance and adds it to the locked balance; no other wallet changes.
pub reserve_moves :
    (id : ℕ) (m : Movement) (db : Db) (r : TransactionResult) (x : ℤ) (k : Key)
    → to_big_int m.amount ≡ some x
    → find_transaction m.account m.reference db.transactions ≡ none
    → (reserve id m db).0 ≡ ok r
    → let b = balance_of (find_wallet k db.wallets) in
      balance_of (find_wallet k (reserve id m db).1.wallets)
      ≡ (if key_eq (m.account, m.asset) k then (b.0 -ℤ x, b.1 +ℤ x) else b)
unfolding reserve
reserve_moves id m db r x k read new h =
    validated_pair id m.account m.account m available locked db r x k read new h
    ∙ moved-reserve k m x _

-- A release under a new reference takes its amount from the locked balance and adds it to the
-- available balance; no other wallet changes.
pub release_moves :
    (id : ℕ) (m : Movement) (db : Db) (r : TransactionResult) (x : ℤ) (k : Key)
    → to_big_int m.amount ≡ some x
    → find_transaction m.account m.reference db.transactions ≡ none
    → (release id m db).0 ≡ ok r
    → let b = balance_of (find_wallet k db.wallets) in
      balance_of (find_wallet k (release id m db).1.wallets)
      ≡ (if key_eq (m.account, m.asset) k then (b.0 +ℤ x, b.1 -ℤ x) else b)
unfolding release
release_moves id m db r x k read new h =
    validated_pair id m.account m.account m locked available db r x k read new h
    ∙ moved-release k m x _

pair_key : {a b c d : ℕ} → a ≡ c → b ≡ d → ◌≡◌ {A = ℕ × ℕ} (a, b) (c, d)
pair_key p q i = (p i, q i)

pub put_back :
    (j j' k : Key) (x : ℤ) (b : ℤ × ℤ) {b' : ℤ × ℤ}
    → j' ≡ j
    → b' ≡ (if key_eq j k then (b.0 -ℤ x, b.1 +ℤ x) else b)
    → (if key_eq j' k then (b'.0 +ℤ x, b'.1 -ℤ x) else b') ≡ b
put_back j j' k x b same after =
    rw (same, after)
      (elim (Bool-cases (key_eq j k)) [
        | inl e ↦ rw e (pair_eq (omega int_laws) (omega int_laws))
        | inr e ↦ rw e
      ])

-- A release of what a reservation has just locked, both posted under new references, puts every
-- balance of every wallet back.
pub reserve-release :
    (id id' : ℕ) (m m' : Movement) (db : Db) (r r' : TransactionResult) (x : ℤ) (k : Key)
    → to_big_int m.amount ≡ some x
    → m'.account ≡ m.account
    → m'.asset ≡ m.asset
    → m'.amount ≡ m.amount
    → find_transaction m.account m.reference db.transactions ≡ none
    → (reserve id m db).0 ≡ ok r
    → find_transaction m'.account m'.reference (reserve id m db).1.transactions ≡ none
    → (release id' m' (reserve id m db).1).0 ≡ ok r'
    → balance_of (find_wallet k (release id' m' (reserve id m db).1).1.wallets)
      ≡ balance_of (find_wallet k db.wallets)
reserve-release id id' m m' db r r' x k read same_account same_asset same_amount new h new' h' =
    release_moves id' m' (reserve id m db).1 r' x k (rw same_amount read) new' h'
    ∙ put_back (m.account, m.asset) (m'.account, m'.asset) k x
        (balance_of (find_wallet k db.wallets)) (pair_key same_account same_asset)
        (reserve_moves id m db r x k read new h)

-- A transfer between two accounts that is posted under a new reference takes its amount from the
-- one's available balance and adds it to the other's; no other available balance and no locked
-- balance changes.
pub transfer_moves :
    (id : ℕ) (m : Movement) (to : ℕ) (db : Db) (r : TransactionResult) (x : ℤ) (k : Key)
    → to_big_int m.amount ≡ some x
    → m.account ≢ to
    → find_transaction m.account m.reference db.transactions ≡ none
    → (transfer id m to db).0 ≡ ok r
    → let b = balance_of (find_wallet k db.wallets) in
      balance_of (find_wallet k (transfer id m to db).1.wallets) ≡ (
        if key_eq (m.account, m.asset) k
            then b.0 -ℤ x
            else if key_eq (to, m.asset) k
            then b.0 +ℤ x
            else b.0,
        b.1,
      )
unfolding transfer
transfer_moves id m to db r x k read ne new h =
    validated_pair id m.account to (record m { transaction_type = internal_transfer }) available
      available db r x k read new h
    ∙ moved-transfer k m to x _ ne
