-- ===== src/Ledger/Wallets.antt =====
-- The tables and maps of wallets in `postTransaction` (ledger.service.ts), and the order in which
-- their rows are locked.
use novacex.Prelude.{
  ℕ, Bool, true, false, ◌&&◌, ◌||◌, Option, none, some, List, [], ◌∷◌, ◌++◌, ltb, ◌==◌,
  if◌then◌else◌,
}
use novacex.Prelude.Int.{ℤ, pos, ◌+ℤ◌, ◌-ℤ◌, ltb_ℤ}
use novacex.Ledger.{
  LedgerError, Direction, credit, debit, Pool, available, locked, Entry, Wallet,
  insufficient_balance, Result, ok, err,
}

-- `${accountId}:${asset}`
abbrev pub Key : Type 0
Key = ℕ × ℕ

abbrev pub key_eq : Key → Key → Bool
key_eq (a, s) (b, t) = a == b && s == t

abbrev pub key_of : Wallet → Key
key_of w = (w.account, w.asset)

abbrev pub entry_key : Entry → Key
entry_key e = (e.account, e.asset)

abbrev pub zero_wallet : Key → Wallet
zero_wallet (a, s) = record { account = a; asset = s; available = pos 0; locked = pos 0 }

-- `map.get(key)`, and the row that `SELECT … WHERE account_id = $1 AND asset = $2` finds
abbrev pub find_wallet : Key → List Wallet → Option Wallet
find_wallet k [] = none
find_wallet k (w ∷ ws) = if key_eq (key_of w) k then some w else find_wallet k ws

-- `map.set(key, wallet)`
unfoldable pub put_wallet : Wallet → List Wallet → List Wallet
put_wallet w [] = w ∷ []
put_wallet w (v ∷ vs) = if key_eq (key_of v) (key_of w) then w ∷ vs else v ∷ put_wallet w vs

-- `UPDATE wallet_balances SET … WHERE account_id = $3 AND asset = $4`
unfoldable pub update_row : Wallet → List Wallet → List Wallet
update_row w [] = []
update_row w (v ∷ vs) = (if key_eq (key_of v) (key_of w) then w else v) ∷ update_row w vs

-- `walletKeys.set(key, …)`
unfoldable pub add_key : Key → List Key → List Key
add_key k [] = k ∷ []
add_key k (j ∷ js) = if key_eq j k then k ∷ js else j ∷ add_key k js

unfoldable pub wallet_keys : List Key → List Entry → List Key
unfolding add_key
wallet_keys keys [] = keys
wallet_keys keys (e ∷ es) = wallet_keys (add_key (entry_key e) keys) es

-- The comparison by account, then asset. (Text order is number order here.)
abbrev pub key_before : Key → Key → Bool
key_before (a, s) (b, t) = ltb a b || a == b && ltb s t

unfoldable pub insert_key : Key → List Key → List Key
insert_key k [] = k ∷ []
insert_key k (j ∷ js) = if key_before j k then j ∷ insert_key k js else k ∷ j ∷ js

unfoldable pub sort_keys : List Key → List Key
unfolding insert_key
sort_keys [] = []
sort_keys (k ∷ ks) = insert_key k (sort_keys ks)

-- Step 2: each wallet row is read under a lock, or made with zero balances. The first list is
-- `walletStates`, the second the table.
unfoldable pub lock_row : Key → List Wallet × List Wallet → List Wallet × List Wallet
unfolding put_wallet
lock_row k (states, table) = elim (find_wallet k table) [
  | none ↦ (put_wallet (zero_wallet k) states, table ++ zero_wallet k ∷ [])
  | some w ↦ (put_wallet w states, table)
]

-- A row for every key. (The foreign keys of the table are not modelled: the account and the asset
-- exist.)
unfoldable pub lock_wallets : List Key → List Wallet × List Wallet → List Wallet × List Wallet
unfolding lock_row
lock_wallets [] s = s
lock_wallets (k ∷ ks) s = lock_wallets ks (lock_row k s)

-- The account 22222222-2222-2222-2222-222222222222 may go below zero.
abbrev pub suspense_account : ℕ
suspense_account = 0x22222222222222222222222222222222

-- One entry on a wallet, with no check (step 5).
apply_debit : Pool → ℤ → Wallet → Wallet
apply_debit available x w = record w { available = w.available -ℤ x }
apply_debit locked x w = record w { locked = w.locked -ℤ x }

apply_credit : Pool → ℤ → Wallet → Wallet
apply_credit available x w = record w { available = w.available +ℤ x }
apply_credit locked x w = record w { locked = w.locked +ℤ x }

apply_direction : Direction → Pool → ℤ → Wallet → Wallet
unfolding apply_debit apply_credit
apply_direction debit p x w = apply_debit p x w
apply_direction credit p x w = apply_credit p x w

unfoldable pub apply_entry : Entry → Wallet → Wallet
unfolding apply_direction
apply_entry e w = apply_direction e.direction e.pool e.amount w

-- One entry on a wallet, where a debit must be covered (step 3).
check_debit : Pool → Entry → Wallet → Result LedgerError Wallet
check_debit available e w =
    if ltb_ℤ w.available e.amount && (if e.account == suspense_account then false else true)
    then err (insufficient_balance available e.asset e.amount w.available)
    else ok (record w { available = w.available -ℤ e.amount })
check_debit locked e w =
    if ltb_ℤ w.locked e.amount
    then err (insufficient_balance locked e.asset e.amount w.locked)
    else ok (record w { locked = w.locked -ℤ e.amount })

check_direction : Direction → Entry → Wallet → Result LedgerError Wallet
unfolding check_debit apply_credit
check_direction debit e w = check_debit e.pool e w
check_direction credit e w = ok (apply_credit e.pool e.amount w)

unfoldable pub check_entry : Entry → Wallet → Result LedgerError Wallet
unfolding check_direction
check_entry e w = check_direction e.direction e w
