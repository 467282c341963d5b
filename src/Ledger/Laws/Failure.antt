-- ===== src/Ledger/Laws/Failure.antt =====
-- The one error of a validated `postTransaction` (ledger.service.ts).
use novacex.Prelude.{ℕ, ◌≡◌, ◌⊎◌, Bool, true, false, ◌||◌, none, some, List, [], ◌∷◌}
use novacex.Prelude.Int.{ℤ}
use novacex.Ledger.{
  Pool, available, locked, Wallet, LedgerError, insufficient_balance, Result, ok, err,
}
use novacex.Ledger.Wallets.{Key, key_eq, find_wallet}

-- Membership of a key.
mem_key : Key → List Key → Bool
mem_key k [] = false
mem_key k (j ∷ js) = key_eq j k || mem_key k js

-- Whether the map of wallets has a key.
abbrev has : Key → List Wallet → Bool
has k ws = elim (find_wallet k ws) [ none ↦ false | some _ ↦ true ]

-- A debit that is not covered.
abbrev pub Uncovered : LedgerError → Type 0
Uncovered x = (p : Pool) × (a : ℕ) × (y : ℤ) × (z : ℤ) × (x ≡ insufficient_balance p a y z)

abbrev pub Outcome : {A : Type 0} → Result LedgerError A → Type 0
Outcome {A} m = ((a : A) × (m ≡ ok a)) ⊎ ((x : LedgerError) × (m ≡ err x) × Uncovered x)

abbrev pool_balance : Pool → Wallet → ℤ
pool_balance available w = w.available
pool_balance locked w = w.locked
