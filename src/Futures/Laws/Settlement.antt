-- ===== src/Futures/Laws/Settlement.antt =====
-- The ledger transaction of a liquidation (liquidation.service.ts): the two sides of its entries.
use mathlib.Core.Path.{ap}
use novacex.Prelude.{ℕ, ◌≡◌, sym, ◌∙◌, List, [], ◌∷◌, ◌++◌, if◌then◌else◌}
use novacex.Prelude.Int.{ℤ, pos, ◌+ℤ◌, ◌-ℤ◌, ◌≤ℤ◌, leb_ℤ, int_laws}
use novacex.Ledger.{Entry, credit, available}
use novacex.Ledger.Laws.Enforcement.{debits, credits}
use novacex.Spot.Laws.Settlement.{debits-append, credits-append}
use novacex.Futures.{Position}
use novacex.Futures.Waterfall.{
  insurance_fund, Progress, fund_entry, if_positive, released_entries, deduction_entries,
  deficit_entries, liquidation_entries,
}

-- What a group of entries credits in an asset beyond what it debits.
record Excess (s : ℕ) (es : List Entry) (x : ℤ) : Type 0 where
  sides : credits s es ≡ debits s es +ℤ x

joined : (a b c d x y : ℤ) → a ≡ b +ℤ x → c ≡ d +ℤ y → a +ℤ c ≡ b +ℤ d +ℤ (x +ℤ y)
joined a b c d x y h k = rw (h, k) (omega int_laws)

Excess-append :
    (s : ℕ) (es fs : List Entry) (x y : ℤ)
    → Excess s es x
    → Excess s fs y
    → Excess s (es ++ fs) (x +ℤ y)
Excess-append s es fs x y h k = record {
  sides =
      credits-append s es fs
      ∙ joined (credits s es) (debits s es) (credits s fs) (debits s fs) x y h.sides k.sides
      ∙ ap (λ z. z +ℤ (x +ℤ y)) (sym (debits-append s es fs));
}

released-Excess :
    (account asset : ℕ) (im : ℤ) → Excess asset (released_entries account asset im) (pos 0)
unfolding debits credits
released-Excess account asset im = record { sides = grind int_laws }

credit-Excess :
    (account asset : ℕ) (x : ℤ)
    → pos 0 ≤ℤ x
    → Excess asset (if_positive x (fund_entry account asset x credit available ∷ [])) x
unfolding debits credits
credit-Excess account asset x h = record { sides = grind int_laws }

-- What a deduction leaves of the fee.
abbrev pub fee_shortfall : ℤ → ℤ → ℤ
fee_shortfall deduction fee = if leb_ℤ fee deduction then pos 0 else fee -ℤ deduction

deduction-Excess :
    (account asset : ℕ) (deduction fee : ℤ)
    → pos 0 ≤ℤ deduction
    → pos 0 ≤ℤ fee
    → Excess asset
        (deduction_entries account asset deduction fee)
        (fee_shortfall deduction fee -ℤ fee)
unfolding debits credits
deduction-Excess account asset deduction fee h k = record { sides = grind int_laws }

deficit-Excess :
    (asset : ℕ) (vault deficit : ℤ)
    → pos 0 ≤ℤ vault
    → Excess asset (deficit_entries asset vault deficit) (pos 0)
unfolding debits credits
deficit-Excess asset vault deficit h = record { sides = grind int_laws }

total_excess : (c x f : ℤ) → pos 0 +ℤ (c +ℤ (x -ℤ f +ℤ (f +ℤ pos 0))) ≡ c +ℤ x
total_excess c x f = omega int_laws

-- The entries of a liquidation credit, in the collateral asset, what the user gains and what the
-- deduction leaves of the fee, beyond what they debit; so they balance where there is no gain and
-- the fee is deducted in full. The totals and the insurance fund's balance are not negative.
pub liquidation_entries_excess :
    (p : Position) (asset : ℕ) (vault : ℤ) (s : Progress)
    → pos 0 ≤ℤ vault
    → pos 0 ≤ℤ s.total_user_credit
    → pos 0 ≤ℤ s.total_user_deduction
    → pos 0 ≤ℤ s.total_fee
    → credits asset (liquidation_entries p asset vault s)
      ≡ debits asset (liquidation_entries p asset vault s)
        +ℤ (s.total_user_credit +ℤ fee_shortfall s.total_user_deduction s.total_fee)
unfolding liquidation_entries
liquidation_entries_excess p asset vault s vault_pos credit_pos deduction_pos fee_pos =
    let all = Excess-append asset _ _ _ _ (released-Excess p.account asset s.total_released_im) (
      Excess-append asset _ _ _ _ (credit-Excess p.account asset s.total_user_credit credit_pos) (
        Excess-append asset _ _ _ _
          (deduction-Excess p.account asset s.total_user_deduction s.total_fee deduction_pos
            fee_pos)
          (Excess-append asset _ _ _ _ (credit-Excess insurance_fund asset s.total_fee fee_pos)
            (deficit-Excess asset vault s.total_deficit vault_pos)))) in
    all.sides
    ∙ ap (λ x. debits asset (liquidation_entries p asset vault s) +ℤ x)
        (total_excess s.total_user_credit (fee_shortfall s.total_user_deduction s.total_fee)
          s.total_fee)
