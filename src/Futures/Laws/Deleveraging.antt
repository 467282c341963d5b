-- ===== src/Futures/Laws/Deleveraging.antt =====
-- `processAdlEvent` (adl.service.ts): the entries of a counterparty's close, and what is recovered
-- from it.
use mathlib.Core.Path.{subst}
use native.Mathlib.Nat.{mul-le-mul_right}
use novacex.Prelude.{
  ℕ, refl, ap, ◌∙◌, suc, ◌*◌, ◌/◌, ◌≤◌, ◌≡◌, ◌≢◌, sym, inl, inr, true, false, Bool-cases, arith,
  if◌then◌else◌,
}
use novacex.Prelude.Int.{
  ℤ, pos, negsuc, ◌+ℤ◌, ◌-ℤ◌, ◌*ℤ◌, ◌/ℤ◌, ◌≤ℤ◌, ◌<ℤ◌, ltb_ℤ, leb_ℤ, int_laws, -ℤ_parts, neg_ℕ,
}
use novacex.Decimal.{scale}
use novacex.Decimal.Value.{mul_dec}
use novacex.Ledger.Laws.Enforcement.{debits, credits, net_key}
use novacex.Prelude.Result.{Result, ok, >>=_passed}
use novacex.Futures.Positions.{divided}
use novacex.Futures.{PositionSide, Position, FuturesError}
use novacex.Futures.Risk.{calculate_realized_pnl, price_gain}
use novacex.Futures.Waterfall.{insurance_fund, adl_suspense}
use novacex.Futures.Adl.{
  Extraction, extraction, partial_extraction, without_dust, aligned, deleveraging_entries,
  denied_profit, profit_at,
}
use novacex.Futures.Laws.Liquidation.{neg_ℕ_le, mul_dec_loss}

deleveraging_entries_balance :
    (s : ℕ) (p : Position) (released : ℤ) (t : Extraction)
    → debits s (deleveraging_entries p released t) ≡ credits s (deleveraging_entries p released t)
unfolding deleveraging_entries debits credits
deleveraging_entries_balance s p released t = grind int_laws

released_cancels : (a x : ℤ) → pos 0 -ℤ a +ℤ (a +ℤ x) ≡ x
released_cancels a x = omega int_laws

-- A sum that is posted where it is above zero.
abbrev pub or_nothing : ℤ → ℤ
or_nothing x = if ltb_ℤ (pos 0) x then x else pos 0

counterparty_gain :
    (p : Position) (released : ℤ) (t : Extraction)
    → p.account ≢ insurance_fund
    → p.account ≢ adl_suspense
    → net_key (p.account, p.collateral_asset) (deleveraging_entries p released t)
      ≡ or_nothing t.extracted_profit
unfolding deleveraging_entries net_key
counterparty_gain p released t not_fund not_suspense = grind int_laws

suspense_gain :
    (p : Position) (released : ℤ) (t : Extraction)
    → p.account ≢ adl_suspense
    → net_key (adl_suspense, p.collateral_asset) (deleveraging_entries p released t)
      ≡ or_nothing t.recovered_deficit
unfolding deleveraging_entries net_key
suspense_gain p released t not_suspense = grind int_laws

-- The amounts of a close are those of the quantity that it takes.
abbrev IsPriced : Position → ℤ → ℤ → Extraction → Type 0
IsPriced p mark bankruptcy t =
    (t.extracted_profit ≡ calculate_realized_pnl p.side t.reduce_quantity p.entry_price bankruptcy)
    × (t.recovered_deficit
        ≡ calculate_realized_pnl p.side t.reduce_quantity p.entry_price mark
          -ℤ calculate_realized_pnl p.side t.reduce_quantity p.entry_price bankruptcy)

extraction_same :
    {a b : Extraction} → ◌≡◌ {A = Result FuturesError Extraction} (ok a) (ok b) → a ≡ b
extraction_same h = cc

partial-IsPriced :
    (p : Position) (mark bankruptcy quantity : ℤ)
    → IsPriced p mark bankruptcy (partial_extraction p mark bankruptcy quantity)
partial-IsPriced p mark bankruptcy quantity = elim (Bool-cases (leb_ℤ p.quantity quantity)) [
  | inl e ↦ rw e (refl, refl)
  | inr e ↦ rw e (refl, refl)
]

extraction-IsPriced :
    (p : Position) (mark bankruptcy lot least remaining : ℤ) (t : Extraction)
    → extraction p mark bankruptcy (lot, least) remaining ≡ ok t
    → IsPriced p mark bankruptcy t
unfolding extraction
extraction-IsPriced p mark bankruptcy lot least remaining t h =
    elim (Bool-cases (ltb_ℤ remaining (denied_profit p p.quantity mark bankruptcy))) [
      | inl e ↦
          let (ratio, _, more) =
            >>=_passed (divided remaining (denied_profit p p.quantity mark bankruptcy)) _
              (rw (e, extraction) at h) in
          let (lots, _, last) = >>=_passed (divided (mul_dec p.quantity ratio) lot) _ more in
          subst (IsPriced p mark bankruptcy) (extraction_same last) (
            partial-IsPriced p mark bankruptcy (without_dust p bankruptcy least (aligned lots lot)))
      | inr e ↦
          subst (IsPriced p mark bankruptcy) (extraction_same (rw (e, extraction) at h))
            (refl, refl)
    ]

-- What the entries of a counterparty's close move, where the counterparty is not one of the two
-- system accounts, for the quantity that is taken of it. It is paid the profit of that quantity at
-- the bankruptcy price, and nothing where that is a loss, which is not taken from it either. The
-- suspense account is paid the profit at the mark price less that at the bankruptcy price, where
-- that is above zero. The two sides are equal in every asset.
pub deleveraging_entries_move :
    (s : ℕ) (p : Position) (mark bankruptcy lot least remaining released : ℤ) (t : Extraction)
    → extraction p mark bankruptcy (lot, least) remaining ≡ ok t
    → p.account ≢ insurance_fund
    → p.account ≢ adl_suspense
    → (net_key (p.account, p.collateral_asset) (deleveraging_entries p released t)
        ≡ or_nothing (calculate_realized_pnl p.side t.reduce_quantity p.entry_price bankruptcy))
      × (net_key (adl_suspense, p.collateral_asset) (deleveraging_entries p released t)
          ≡ or_nothing (
              calculate_realized_pnl p.side t.reduce_quantity p.entry_price mark
              -ℤ calculate_realized_pnl p.side t.reduce_quantity p.entry_price bankruptcy))
      × (debits s (deleveraging_entries p released t)
          ≡ credits s (deleveraging_entries p released t))
deleveraging_entries_move s p mark bankruptcy lot least remaining released t h not_fund
      not_suspense =
    let (profit, denied) = extraction-IsPriced p mark bankruptcy lot least remaining t h in
    (
      counterparty_gain p released t not_fund not_suspense ∙ ap or_nothing profit,
      suspense_gain p released t not_suspense ∙ ap or_nothing denied,
      deleveraging_entries_balance s p released t,
    )

share_le : (a b q : ℕ) → a ≤ b → a * q / scale ≤ b * q / scale
share_le a b q h = omega (arith, mul-le-mul_right q h)

below_zero : (a b : ℕ) → neg_ℕ a ≤ℤ pos b
below_zero a b = ground arith

mul_dec_mono : (a b : ℤ) (q : ℕ) → a ≤ℤ b → mul_dec a (pos q) ≤ℤ mul_dec b (pos q)
unfolding mul_dec ◌*ℤ◌ ◌/ℤ◌
mul_dec_mono (pos a) (pos b) q h = omega (arith, share_le a b q (omega arith))
mul_dec_mono (pos a) (negsuc b) q h = absurd (omega arith)
mul_dec_mono (negsuc a) (pos b) q h =
    subst (λ x. x ≤ℤ pos (b * q / scale)) (sym (mul_dec_loss a q))
      (below_zero (suc a * q / scale) (b * q / scale))
mul_dec_mono (negsuc a) (negsuc b) q h =
    subst (λ x. x ≤ℤ mul_dec (negsuc b) (pos q)) (sym (mul_dec_loss a q))
      (subst (λ x. neg_ℕ (suc a * q / scale) ≤ℤ x) (sym (mul_dec_loss b q))
        (neg_ℕ_le (suc b * q / scale) (suc a * q / scale)
          (share_le (suc b) (suc a) q (omega arith))))

-- A profit grows with the price difference.
profit_mono :
    (side : PositionSide) (q entry price price' : ℤ)
    → price_gain side entry price ≤ℤ price_gain side entry price'
    → calculate_realized_pnl side q entry price ≤ℤ calculate_realized_pnl side q entry price'
unfolding calculate_realized_pnl
profit_mono side (negsuc n) entry price price' h = ground arith
profit_mono side (pos n) entry price price' h = elim (Bool-cases (leb_ℤ (pos n) (pos 0))) [
  | inl e ↦ rw (e, calculate_realized_pnl) (omega arith)
  | inr e ↦ rw (e, calculate_realized_pnl) (mul_dec_mono _ _ n h)
]

leb_ℤ→le : (a b : ℤ) → leb_ℤ a b ≡ true → a ≤ℤ b
leb_ℤ→le a b h = ground arith

leb_ℤ→ge : (a b : ℤ) → leb_ℤ a b ≡ false → b ≤ℤ a
leb_ℤ→ge a b h = ground arith

not_above : (a b : ℤ) → a ≤ℤ b → pos 0 <ℤ a -ℤ b → ⊥
not_above a b h k = ground (arith, -ℤ_parts a b)

difference_nonneg : (a b : ℤ) → b ≤ℤ a → pos 0 ≤ℤ a -ℤ b
difference_nonneg a b h = ground (arith, -ℤ_parts a b)

-- Where a close of the whole position denies a profit, a close of any part denies none or some.
pub denied_nonneg :
    (p : Position) (q mark bankruptcy : ℤ)
    → pos 0 <ℤ denied_profit p p.quantity mark bankruptcy
    → pos 0 ≤ℤ denied_profit p q mark bankruptcy
denied_nonneg p q mark bankruptcy h =
    let g = price_gain p.side p.entry_price mark in
    let g' = price_gain p.side p.entry_price bankruptcy in
    elim (Bool-cases (leb_ℤ g' g)) [
      | inl e ↦
          difference_nonneg _ _
            (profit_mono p.side q p.entry_price bankruptcy mark (leb_ℤ→le g' g e))
      | inr e ↦ absurd (
          not_above (profit_at p p.quantity mark) (profit_at p p.quantity bankruptcy)
            (profit_mono p.side p.quantity p.entry_price mark bankruptcy (leb_ℤ→ge g' g e)) h)
    ]
