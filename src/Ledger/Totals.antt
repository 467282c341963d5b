-- ===== src/Ledger/Totals.antt =====
-- Step 0 of `postTransaction` (ledger.service.ts): every internal transaction balances its debits
-- and credits, asset by asset.
use novacex.Prelude.{ℕ, List, [], ◌∷◌, ◌==◌, if◌then◌else◌}
use novacex.Prelude.Int.{ℤ, pos, ◌+ℤ◌, eqb_ℤ}
use novacex.Ledger.{
  LedgerError, Direction, credit, debit, Entry, unbalanced_transaction, Result, ok, err,
}

-- `perAssetTotals`: asset, debits, credits
abbrev pub Totals : Type 0
Totals = List (ℕ × ℤ × ℤ)

abbrev pub add_amount : Direction → ℤ → ℕ × ℤ × ℤ → ℕ × ℤ × ℤ
add_amount debit x (a, d, c) = (a, d +ℤ x, c)
add_amount credit x (a, d, c) = (a, d, c +ℤ x)

unfoldable pub add_total : Entry → Totals → Totals
add_total e [] = add_amount e.direction e.amount (e.asset, pos 0, pos 0) ∷ []
add_total e (t ∷ ts) =
    if t.0 == e.asset then add_amount e.direction e.amount t ∷ ts else t ∷ add_total e ts

unfoldable pub per_asset_totals : Totals → List Entry → Totals
unfolding add_total
per_asset_totals totals [] = totals
per_asset_totals totals (e ∷ es) = per_asset_totals (add_total e totals) es

-- The loop over the totals throws at the first asset whose sides differ.
unfoldable pub check_totals : Totals → Result LedgerError (Unit {0})
check_totals [] = ok tt
check_totals ((a, d, c) ∷ ts) =
    if eqb_ℤ d c then check_totals ts else err (unbalanced_transaction d c)
