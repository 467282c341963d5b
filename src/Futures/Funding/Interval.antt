-- ===== src/Futures/Funding/Interval.antt =====
-- The settlement of an epoch (`settleFundingInterval`, funding.service.ts).
use novacex.Prelude.{ℕ, suc, Bool, ◌||◌, none, some, List, [], ◌∷◌, ◌++◌, map, if◌then◌else◌}
use novacex.Prelude.Int.{ℤ, pos, ◌+ℤ◌, ◌-ℤ◌, ltb_ℤ, leb_ℤ}
use novacex.Prelude.Result.{Result, err, ok, ◌>>=◌}
use novacex.Decimal.{from_big_int}
use novacex.Ledger.{
  futures_funding_payment, credit, debit, available, Entry, Db, LedgerError, reference_conflict,
  TransactionResult,
}
use novacex.Ledger.Post.{post_transaction}
use novacex.Ledger.Service.{release}
use novacex.Futures.{Position, FuturesError, ledger_error}
use novacex.Futures.Waterfall.{insurance_fund, fund_entry, if_positive}
use novacex.Futures.Evaluation.{update_position, available_in, liquidation_input}
use novacex.Futures.Funding.Rate.{FundingRate, calculate_adaptive_funding_rate}
use novacex.Futures.Funding.Payments.{
  FundingHistory, FundingStore, FundingSurroundings, is_settled_epoch, open_positions,
  funding_reference, release_of, release_text, Payment, payments_of, margin_release, funded_amount,
}

-- A call inside the `try`, and what comes after it if it does not throw. What has been written
-- before a throw stays written.
abbrev pub Attempt : Type 0 → Type 0
Attempt A = Result LedgerError A × FundingStore

abbrev pub and_then : {A B : Type 0} → Attempt A → (A → FundingStore → Attempt B) → Attempt B
and_then (err e, x) f = (err e, x)
and_then (ok a, x) f = f a x

abbrev pub in_ledger : FundingStore → Result LedgerError TransactionResult × Db → Attempt (Unit {0})
in_ledger x (err e, db) = (err e, record x { db = db })
in_ledger x (ok r, db) = (ok tt, record x { db = db })

abbrev pub margin_columns : Position → ℤ → FundingStore → FundingStore
margin_columns p amount x = record x {
  positions =
      update_position p.id (λ row. record row { initial_margin = p.initial_margin -ℤ amount })
        x.positions;
}

-- The release of margin out of the locked balance, and the position's new margin.
unfoldable pub release_margin :
    FundingSurroundings → ℕ → ℕ → Position → ℤ → FundingStore → Attempt (Unit {0})
release_margin u symbol epoch p amount x =
    and_then
      (in_ledger x (
        release (u.release_ids p.id)
          (record {
            account = p.account;
            asset = p.collateral_asset;
            amount = from_big_int amount;
            transaction_type = futures_funding_payment;
            reference = release_of symbol epoch p.id;
            description = release_text;
          })
          x.db))
      (λ done y. (ok tt, margin_columns p amount y))

-- The amount that the user funds, after the release of margin that a payer needs.
unfoldable pub fund_payment : FundingSurroundings → ℕ → ℕ → Payment → FundingStore → Attempt ℤ
unfolding release_margin
fund_payment u symbol epoch t x =
    let p = t.row in
    let avail = available_in p.account p.collateral_asset x.db.wallets in
    let amount = margin_release t.absolute_amount avail p.initial_margin in
    let funded = funded_amount t.absolute_amount (avail +ℤ amount) in
    let released = and_then (release_margin u symbol epoch p amount x) (λ done y. (ok funded, y)) in
    if t.is_credit || leb_ℤ t.absolute_amount avail
    then (ok t.absolute_amount, x)
    else if ltb_ℤ (pos 0) amount
    then released
    else (ok funded, x)

-- The two legs: the user, and the insurance fund on the other side.
unfoldable pub funding_entries : Position → Bool → ℤ → List Entry
funding_entries p is_credit amount = if_positive amount (
    fund_entry p.account p.collateral_asset amount (if is_credit then credit else debit) available
    ∷ fund_entry insurance_fund p.collateral_asset amount (if is_credit then debit else credit)
        available
    ∷ [])

unfoldable pub post_funding :
    FundingSurroundings → ℕ → ℕ → ℤ → Position → List Entry → FundingStore → Attempt (Unit {0})
post_funding u symbol epoch rate p [] x = (ok tt, x)
post_funding u symbol epoch rate p (e ∷ es) x = in_ledger x (
    post_transaction (u.payment_ids p.id)
      (record {
        account = p.account;
        transaction_type = futures_funding_payment;
        reference = funding_reference symbol epoch p.id;
        description = u.payment_text p.side symbol rate;
        entries = map liquidation_input (e ∷ es);
      })
      x.db)

-- The body of the `try`.
unfoldable pub try_payment :
    FundingSurroundings → ℕ → ℕ → ℤ → Payment → FundingStore → Attempt (Unit {0})
unfolding fund_payment
try_payment u symbol epoch rate t x = and_then (fund_payment u symbol epoch t x) (λ amount y.
    post_funding u symbol epoch rate t.row (funding_entries t.row t.is_credit amount) y)

-- The `catch`: a conflict of references, whose message says `already exists`, counts as settled.
abbrev pub caught :
    ℕ → Result LedgerError (Unit {0}) × FundingStore → Result FuturesError (ℕ × FundingStore)
caught count (ok _, x) = ok (suc count, x)
caught count (err (reference_conflict reference), x) = ok (suc count, x)
caught count (err e, x) = err (ledger_error e)

unfoldable pub settle_payments :
    FundingSurroundings
    → ℕ
    → ℕ
    → ℤ
    → List Payment
    → ℕ × FundingStore
    → Result FuturesError (ℕ × FundingStore)
unfolding try_payment
settle_payments u symbol epoch rate [] s = ok s
settle_payments u symbol epoch rate (t ∷ ts) (count, x) = do
  s ← caught count (try_payment u symbol epoch rate t x)
  settle_payments u symbol epoch rate ts s

abbrev pub applied_rate : FundingSurroundings → FundingRate → ℤ
applied_rate u r = elim u.static_funding_rate [ none ↦ r.funding_rate | some rate ↦ rate ]

abbrev pub history_row : ℕ → ℕ → ℤ → FundingRate → FundingHistory
history_row symbol epoch rate r = record {
  symbol = symbol;
  funding_rate = rate;
  mark_price = r.mark_price;
  index_price = r.index_price;
  epoch = epoch;
}

-- The settlement of an epoch that has open positions.
unfoldable pub settle_positions :
    FundingSurroundings
    → ℕ
    → ℕ
    → FundingRate
    → List Position
    → FundingStore
    → Result FuturesError (ℕ × FundingStore)
unfolding settle_payments
settle_positions u symbol epoch r [] x = ok (0, x)
settle_positions u symbol epoch r (p ∷ ps) x = do
  s ←
      settle_payments u symbol epoch (applied_rate u r)
        (payments_of r.mark_price (applied_rate u r) (p ∷ ps)) (0, x)
  ok (
    s.0,
    record s.1 { history = s.1.history ++ history_row symbol epoch (applied_rate u r) r ∷ [] },
  )

-- `settleFundingInterval`, with the epoch instead of its time stamp: how many positions it settled.
unfoldable pub settle_funding_interval :
    FundingSurroundings → ℕ → ℕ → FundingStore → Result FuturesError (ℕ × FundingStore)
unfolding settle_positions
settle_funding_interval u symbol epoch x =
    elim (calculate_adaptive_funding_rate (u.mark_prices symbol) (u.index_prices symbol)) [
      | none ↦ ok (0, x)
      | some r ↦
          if is_settled_epoch symbol epoch x.history
          then ok (0, x)
          else settle_positions u symbol epoch r (open_positions symbol x.positions) x
    ]
