-- ===== src/Ledger/Laws/Enforcement.antt =====
-- The balance enforcement of `postTransaction` (ledger.service.ts).
use mathlib.Core.Path.{ap₂}
use novacex.Prelude.{
  ℕ, suc, zero, ◌≡◌, refl, ◌∙◌, inl, inr, List, [], ◌∷◌, arith, ◌==◌, if◌then◌else◌, Bool-cases,
  All,
}
use novacex.Prelude.Int.{ℤ, pos, ◌+ℤ◌, int_laws, +ℤ_assoc, eqb_ℤ→eq, +ℤ-zero, zero-+ℤ}
use novacex.Ledger.{Direction, credit, debit, available, locked, Wallet, Entry, ok}
use novacex.Ledger.Wallets.{Key, key_eq, entry_key, find_wallet}
use novacex.Ledger.Totals.{Totals, add_total, per_asset_totals, check_totals}
use novacex.Ledger.Laws.Maps.{balance_of}
use novacex.Ledger.Laws.Effect.{signed, net}

-- The debits and the credits that the entries hold in one asset.
abbrev debit_side : Direction → ℤ → ℤ
debit_side debit x = x
debit_side credit x = pos 0

abbrev credit_side : Direction → ℤ → ℤ
credit_side credit x = x
credit_side debit x = pos 0

abbrev debit_at : ℕ → Entry → ℤ
debit_at s e = if e.asset == s then debit_side e.direction e.amount else pos 0

abbrev credit_at : ℕ → Entry → ℤ
credit_at s e = if e.asset == s then credit_side e.direction e.amount else pos 0

unfoldable pub debits : ℕ → List Entry → ℤ
debits s [] = pos 0
debits s (e ∷ es) = debit_at s e +ℤ debits s es

unfoldable pub credits : ℕ → List Entry → ℤ
credits s [] = pos 0
credits s (e ∷ es) = credit_at s e +ℤ credits s es

-- The two sides that the totals hold for an asset, zero if it is not there.
find_total : ℕ → Totals → ℤ × ℤ
find_total s [] = (pos 0, pos 0)
find_total s ((a, d, c) ∷ ts) = if a == s then (d, c) else find_total s ts

find-add_total :
    (s : ℕ) (e : Entry) (ts : Totals)
    → find_total s (add_total e ts)
      ≡ ((find_total s ts).0 +ℤ debit_at s e, (find_total s ts).1 +ℤ credit_at s e)
unfolding find_total add_total
find-add_total s e [] = ground (arith, +ℤ-zero (pos 0))
find-add_total s e ((a, d, c) ∷ ts) = elim (Bool-cases (a == e.asset)) [
  | inl same ↦ rw same (
      ground
        (arith, +ℤ-zero d, +ℤ-zero c, +ℤ-zero (find_total s ts).0, +ℤ-zero (find_total s ts).1))
  | inr other ↦ rw other (ground (arith, find-add_total s e ts, +ℤ-zero d, +ℤ-zero c))
]

find-per_asset_totals :
    (s : ℕ) (ts : Totals) (es : List Entry)
    → find_total s (per_asset_totals ts es)
      ≡ ((find_total s ts).0 +ℤ debits s es, (find_total s ts).1 +ℤ credits s es)
unfolding per_asset_totals debits credits
find-per_asset_totals s ts [] =
    ground (arith, +ℤ-zero (find_total s ts).0, +ℤ-zero (find_total s ts).1)
find-per_asset_totals s ts (e ∷ es) = ground (
  arith,
  find-per_asset_totals s (add_total e ts) es,
  find-add_total s e ts,
  +ℤ_assoc (find_total s ts).0 (debit_at s e) (debits s es),
  +ℤ_assoc (find_total s ts).1 (credit_at s e) (credits s es),
)

check-find_total :
    (s : ℕ) (ts : Totals) → check_totals ts ≡ ok tt → (find_total s ts).0 ≡ (find_total s ts).1
unfolding check_totals find_total
check-find_total s [] h = refl
check-find_total s ((a, d, c) ∷ ts) h = ground (arith, check-find_total s ts, eqb_ℤ→eq d c)

-- The enforcement passes only if the debits equal the credits in every asset.
pub check_totals-balanced :
    (s : ℕ) (es : List Entry)
    → check_totals (per_asset_totals [] es) ≡ ok tt
    → debits s es ≡ credits s es
unfolding find_total
check_totals-balanced s es h = ground (
  arith,
  check-find_total s (per_asset_totals [] es) h,
  find-per_asset_totals s [] es,
  zero-+ℤ (debits s es),
  zero-+ℤ (credits s es),
)

-- What all the entries together move on one key, whatever the pool.
unfoldable pub net_key : Key → List Entry → ℤ
net_key k [] = pos 0
net_key k (e ∷ es) =
    (if key_eq (entry_key e) k then signed e.direction e.amount else pos 0) +ℤ net_key k es

pub net_pools : (k : Key) (es : List Entry) → net available k es +ℤ net locked k es ≡ net_key k es
unfolding net net_key
net_pools k [] = +ℤ-zero (pos 0)
net_pools k (e ∷ es) = grind (int_laws, net_pools k es)

-- What an account holds of an asset, and a list of accounts together.
abbrev pub holding : ℤ × ℤ → ℤ
holding (a, l) = a +ℤ l

unfoldable pub total_held : ℕ → List ℕ → List Wallet → ℤ
total_held s [] ws = pos 0
total_held s (a ∷ accts) ws = holding (balance_of (find_wallet (a, s) ws)) +ℤ total_held s accts ws

abbrev pub count : ℕ → List ℕ → ℕ
count a [] = 0
count a (b ∷ bs) = if a == b then suc (count a bs) else count a bs

unfoldable pub net_accounts : ℕ → List ℕ → List Entry → ℤ
net_accounts s [] es = pos 0
net_accounts s (a ∷ accts) es = net_key (a, s) es +ℤ net_accounts s accts es

net_accounts-nil : (s : ℕ) (accts : List ℕ) → net_accounts s accts [] ≡ pos 0
unfolding net_accounts net_key
net_accounts-nil s [] = refl
net_accounts-nil s (a ∷ accts) = rw (net_accounts-nil s accts) (+ℤ-zero (pos 0))

times : ℕ → ℤ → ℤ
times zero x = pos 0
times (suc n) x = x +ℤ times n x

net_accounts-cons :
    (s : ℕ) (accts : List ℕ) (e : Entry) (es : List Entry)
    → net_accounts s accts (e ∷ es)
      ≡ (if e.asset == s
          then times (count e.account accts) (signed e.direction e.amount)
          else pos 0)
        +ℤ net_accounts s accts es
unfolding net_accounts net_key times
net_accounts-cons s [] e es = ground (arith, +ℤ-zero (pos 0))
net_accounts-cons s (a ∷ accts) e es = grind (int_laws, net_accounts-cons s accts e es)

regroup : (a b c d : ℤ) → a +ℤ b +ℤ (c +ℤ d) ≡ a +ℤ c +ℤ (b +ℤ d)
regroup a b c d = omega int_laws

moved_at : ℕ → Entry → ℤ
moved_at s e = if e.asset == s then signed e.direction e.amount +ℤ pos 0 else pos 0

moved_at_sides : (s : ℕ) (e : Entry) → moved_at s e +ℤ debit_at s e ≡ credit_at s e
unfolding moved_at
moved_at_sides s e = grind int_laws

-- Over accounts that list each entry's account once, the entries move what credits exceed debits.
pub net_accounts-sides :
    (s : ℕ) (accts : List ℕ) (es : List Entry)
    → All (λ e. count e.account accts ≡ 1) es
    → net_accounts s accts es +ℤ debits s es ≡ credits s es
unfolding debits credits times moved_at
net_accounts-sides s accts [] h = rw (net_accounts-nil s accts) (+ℤ-zero (pos 0))
net_accounts-sides s accts (e ∷ es) h =
    rw (net_accounts-cons s accts e es, h.0)
      (regroup (moved_at s e) (net_accounts s accts es) (debit_at s e) (debits s es)
        ∙ ap₂ ◌+ℤ◌ (moved_at_sides s e) (net_accounts-sides s accts es h.1))
