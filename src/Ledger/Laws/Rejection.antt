-- ===== src/Ledger/Laws/Rejection.antt =====
-- The refusals of `postTransaction` (ledger.service.ts).
use novacex.Prelude.{ℕ, ◌≡◌, refl, ◌≢◌, ◌⊎◌, inl, inr, false, List, [], ◌∷◌, arith, Bool-cases}
use novacex.Prelude.Int.{ℤ, eqb_ℤ, eqb_ℤ_refl}
use novacex.Ledger.{
  TxType, EntryInput, Entry, PostInput, Db, LedgerError, unbalanced_transaction, ok, err,
  is_external_boundary,
}
use novacex.Ledger.Totals.{Totals, per_asset_totals, check_totals}
use novacex.Ledger.Post.{read_entries, enforce_balance, prepare, prepare_entries, post_transaction}
use novacex.Ledger.Laws.Enforcement.{debits, credits, check_totals-balanced}

check_totals-result :
    (ts : Totals)
    → (check_totals ts ≡ ok tt)
      ⊎ ((d : ℤ) × (c : ℤ) × (check_totals ts ≡ err (unbalanced_transaction d c)) × (d ≢ c))
unfolding check_totals
check_totals-result [] = inl refl
check_totals-result ((a, d, c) ∷ ts) = elim (Bool-cases (eqb_ℤ d c)) [
  | inl same ↦ rw same (check_totals-result ts)
  | inr other ↦ rw other (inr (d, c, refl, λ e. ground (arith, eqb_ℤ_refl d)))
]

prepare_refused :
    (type : TxType) (is : List EntryInput) {es : List Entry} {x : LedgerError}
    → is ≢ []
    → read_entries is ≡ ok es
    → enforce_balance type es ≡ err x
    → prepare_entries type is ≡ err x
unfolding prepare_entries
prepare_refused type [] ne read refused = absurd (ne refl)
prepare_refused type (i ∷ is) ne read refused = rw (read, refused)

unbalanced_refused :
    (id : ℕ) (input : PostInput) (es : List Entry) (db : Db) {x : LedgerError}
    → read_entries input.entries ≡ ok es
    → input.entries ≢ []
    → is_external_boundary input.transaction_type ≡ false
    → check_totals (per_asset_totals [] es) ≡ err x
    → post_transaction id input db ≡ (err x, db)
unfolding post_transaction prepare enforce_balance
unbalanced_refused id input es db read ne internal refused =
    ground (arith, prepare_refused input.transaction_type input.entries {es = es} ne read)

-- An internal transaction whose debits and credits differ in some asset is refused as unbalanced,
-- with two sides that differ, before anything is written.
pub post_transaction_unbalanced :
    (id : ℕ) (input : PostInput) (es : List Entry) (db : Db) (s : ℕ)
    → read_entries input.entries ≡ ok es
    → input.entries ≢ []
    → is_external_boundary input.transaction_type ≡ false
    → debits s es ≢ credits s es
    → (d : ℤ) × (c : ℤ) × (post_transaction id input db ≡ (err (unbalanced_transaction d c), db))
      × (d ≢ c)
post_transaction_unbalanced id input es db s read some_entry internal differ =
    elim (check_totals-result (per_asset_totals [] es)) [
      | inl passed ↦ absurd (differ (check_totals-balanced s es passed))
      | inr (d, c, refused, ne) ↦
          (d, c, unbalanced_refused id input es db read some_entry internal refused, ne)
    ]
