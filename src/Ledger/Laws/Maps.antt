-- ===== src/Ledger/Laws/Maps.antt =====
-- The maps and tables of wallets under their operations.
use novacex.Prelude.{
  ◌≡◌, refl, ◌∙◌, ◌⊎◌, inl, inr, true, Option, none, some, List, [], ◌∷◌, ◌++◌, arith,
  if◌then◌else◌, Option-cases,
}
use novacex.Prelude.Int.{ℤ, pos}
use novacex.Ledger.{Wallet}
use novacex.Ledger.Wallets.{
  Key, key_eq, key_of, zero_wallet, find_wallet, put_wallet, update_row, lock_row, lock_wallets,
}

pub find-put :
    (k : Key) (w : Wallet) (ws : List Wallet)
    → find_wallet k (put_wallet w ws) ≡ (if key_eq (key_of w) k then some w else find_wallet k ws)
unfolding put_wallet
find-put k w [] = refl
find-put k w (v ∷ vs) = ground (arith, find-put k w vs)

-- A write to a row that is there is found; no other row changes, and none appears.
abbrev pub updated : Key → Wallet → Option Wallet → Option Wallet
updated k w none = none
updated k w (some v) = some (if key_eq (key_of w) k then w else v)

pub find-update :
    (k : Key) (w : Wallet) (ws : List Wallet)
    → find_wallet k (update_row w ws) ≡ updated k w (find_wallet k ws)
unfolding update_row
find-update k w [] = refl
find-update k w (v ∷ vs) = ground (arith, find-update k w vs)

pub find-key : (k : Key) (w : Wallet) (ws : List Wallet) → find_wallet k ws ≡ some w → key_of w ≡ k
find-key k w [] h = cc
find-key k w (v ∷ vs) h = ground (arith, find-key k w vs)

pub find-append :
    (k : Key) (v : Wallet) (ws : List Wallet)
    → find_wallet k ws ≡ none
    → find_wallet k (ws ++ v ∷ []) ≡ (if key_eq (key_of v) k then some v else none)
find-append k v [] h = refl
find-append k v (w ∷ ws) h = ground (arith, find-append k v ws)

pub find-append_some :
    (k : Key) (v w : Wallet) (ws : List Wallet)
    → find_wallet k ws ≡ some w
    → find_wallet k (ws ++ v ∷ []) ≡ some w
find-append_some k v w [] h = cc
find-append_some k v w (u ∷ ws) h = ground (arith, find-append_some k v w ws)

-- No key stands twice.
abbrev pub Unique : List Wallet → Type 0
Unique [] = Unit
Unique (w ∷ ws) = (find_wallet (key_of w) ws ≡ none) × Unique ws

pub put-Unique : (w : Wallet) (ws : List Wallet) → Unique ws → Unique (put_wallet w ws)
unfolding put_wallet
put-Unique w [] h = (refl, tt)
put-Unique w (v ∷ vs) h = ground (arith, put-Unique w vs, find-put (key_of v) w vs)

-- Every wallet of the map stands in the table as it is.
abbrev pub Agrees : List Wallet → List Wallet → Type 0
Agrees states table =
    (k : Key) → (find_wallet k states ≡ none) ⊎ (find_wallet k states ≡ find_wallet k table)

key_eq→eq : (k j : Key) → key_eq k j ≡ true → k ≡ j
key_eq→eq k j h = ground arith

Agrees-new :
    (k : Key) (states table : List Wallet)
    → find_wallet k table ≡ none
    → Agrees states table
    → Agrees (put_wallet (zero_wallet k) states) (table ++ zero_wallet k ∷ [])
Agrees-new k states table missing h j = elim (Option-cases (find_wallet j table)) [
  | inl none_there ↦ ground (
    arith,
    find-put j (zero_wallet k) states,
    find-append j (zero_wallet k) table none_there,
    h j,
  )
  | inr (w, there) ↦ ground (
    arith,
    find-put j (zero_wallet k) states,
    find-append_some j (zero_wallet k) w table there,
    key_eq→eq k j,
    h j,
  )
]

Agrees-old :
    (k : Key) (w : Wallet) (states table : List Wallet)
    → find_wallet k table ≡ some w
    → Agrees states table
    → Agrees (put_wallet w states) table
Agrees-old k w states table found h j =
    ground (arith, find-put j w states, find-key k w table found, h j)

-- Step 2 leaves every balance as it is: a missing row counts as zero, and is made with zero.
abbrev pub balance_of : Option Wallet → ℤ × ℤ
balance_of none = (pos 0, pos 0)
balance_of (some w) = (w.available, w.locked)

balance-append :
    (j k : Key) (table : List Wallet)
    → balance_of (find_wallet j (table ++ zero_wallet k ∷ [])) ≡ balance_of (find_wallet j table)
balance-append j k table = elim (Option-cases (find_wallet j table)) [
  | inl e ↦ ground (arith, find-append j (zero_wallet k) table e)
  | inr (w, e) ↦ rw (find-append_some j (zero_wallet k) w table e, e)
]

-- What step 2 has of each key: the map agrees with the table, and no key stands twice in it.
abbrev pub States : Type 0
States = List Wallet × List Wallet

balance-lock_row :
    (j k : Key) (s : States)
    → balance_of (find_wallet j (lock_row k s).1) ≡ balance_of (find_wallet j s.1)
unfolding lock_row
balance-lock_row j k s = elim (Option-cases (find_wallet k s.1)) [
  | inl e ↦ ground (arith, balance-append j k s.1)
  | inr (w, e) ↦ ground arith
]

lock_row-Agrees : (k : Key) (s : States) → Agrees s.0 s.1 → Agrees (lock_row k s).0 (lock_row k s).1
unfolding lock_row
lock_row-Agrees k s h j = elim (Option-cases (find_wallet k s.1)) [
  | inl e ↦ ground (arith, Agrees-new k s.0 s.1 e h j)
  | inr (w, e) ↦ ground (arith, Agrees-old k w s.0 s.1 e h j)
]

lock_row-Unique : (k : Key) (s : States) → Unique s.0 → Unique (lock_row k s).0
unfolding lock_row
lock_row-Unique k s h = elim (Option-cases (find_wallet k s.1)) [
  | inl e ↦ ground (arith, put-Unique (zero_wallet k) s.0 h)
  | inr (w, e) ↦ ground (arith, put-Unique w s.0 h)
]

pub balance-lock :
    (j : Key) (ks : List Key) (s : States)
    → balance_of (find_wallet j (lock_wallets ks s).1) ≡ balance_of (find_wallet j s.1)
unfolding lock_wallets
balance-lock j [] s = refl
balance-lock j (k ∷ ks) s = balance-lock j ks (lock_row k s) ∙ balance-lock_row j k s

pub lock-Agrees :
    (ks : List Key) (s : States)
    → Agrees s.0 s.1
    → Agrees (lock_wallets ks s).0 (lock_wallets ks s).1
unfolding lock_wallets
lock-Agrees [] s h = h
lock-Agrees (k ∷ ks) s h = lock-Agrees ks (lock_row k s) (lock_row-Agrees k s h)

pub lock-Unique : (ks : List Key) (s : States) → Unique s.0 → Unique (lock_wallets ks s).0
unfolding lock_wallets
lock-Unique [] s h = h
lock-Unique (k ∷ ks) s h = lock-Unique ks (lock_row k s) (lock_row-Unique k s h)
