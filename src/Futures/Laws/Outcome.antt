-- ===== src/Futures/Laws/Outcome.antt =====
-- What a liquidation that succeeds has done (`evaluateAndLiquidate`, liquidation.service.ts).
use mathlib.Core.Path.{ap, subst}
use novacex.Prelude.{ℕ, ◌≡◌, refl, sym, ◌∙◌, ◌⊎◌, inl, inr, false, Bool-cases, List, [], ◌∷◌, arith}
use novacex.Prelude.Int.{
  ℤ, pos, ◌+ℤ◌, ◌-ℤ◌, ◌≤ℤ◌, ◌<ℤ◌, ltb_ℤ, leb_ℤ, int_laws, pos_part, neg_part, -ℤ_parts,
}
use novacex.Prelude.Result.{Result, ok, err}
use novacex.Ledger.{Entry, Db, LedgerError, TransactionResult, is_external_boundary}
use novacex.Ledger.Laws.Conservation.{prepare_checked}
use novacex.Ledger.Laws.Enforcement.{debits, credits, check_totals-balanced}
use novacex.Withdrawals.Laws.Posts.{prepared, prepare_all}
use novacex.Futures.{Position, open_position, liquidated}
use novacex.Futures.Risk.{check_liquidation, calculate_position_equity}
use novacex.Futures.Waterfall.{Progress, remaining_equity}
use novacex.Futures.Evaluation.{
  Surroundings, Evaluation, post_liquidation, settled_db, evaluation_of, final_mm, liquidation_row,
}
use novacex.Futures.Laws.Accounts.{Accounts}
use novacex.Futures.Laws.Waterfall.{IsSettled}
use novacex.Futures.Laws.Settlement.{fee_shortfall}

settled_ok :
    (before db : Db) (m : Result LedgerError TransactionResult × Db)
    → settled_db before m ≡ ok db
    → (t : TransactionResult) × (m.0 ≡ ok t)
settled_ok before db (err e, x) h = absurd (ground arith)
settled_ok before db (ok t, x) h = (t, refl)

-- A settlement that the ledger takes balances.
pub post_liquidation-balanced :
    (u : Surroundings) (p : Position) (description : ℕ) (es : List Entry) (db after : Db) (s : ℕ)
    → post_liquidation u p description es db ≡ ok after
    → debits s es ≡ credits s es
unfolding post_liquidation debits credits is_external_boundary
post_liquidation-balanced u p description [] db after s h = refl
post_liquidation-balanced u p description (e ∷ es) db after s h =
    let (t, done) = settled_ok db after _ h in
    let (fs, read) = prepared u.transaction_id _ db done in
    let same = prepare_all p.account _ description _ (e ∷ es) read in
    subst (λ l. debits s l ≡ credits s l) same
      (check_totals-balanced s fs (prepare_checked _ fs read refl))

cancelled : (d x : ℤ) → d ≡ d +ℤ x → x ≡ pos 0
cancelled d x h = omega (int_laws, ap pos_part h, ap neg_part h)

pub no_excess :
    (d c credit short : ℤ)
    → d ≡ c
    → c ≡ d +ℤ (credit +ℤ short)
    → pos 0 ≤ℤ credit
    → pos 0 ≤ℤ short
    → (credit ≡ pos 0) × (short ≡ pos 0)
no_excess d c credit short h k credit_pos short_pos =
    let zero_sum : credit +ℤ short ≡ pos 0 = cancelled d (credit +ℤ short) (h ∙ k) in
    (
      omega (int_laws, ap pos_part zero_sum, ap neg_part zero_sum),
      omega (int_laws, ap pos_part zero_sum, ap neg_part zero_sum),
    )

pub shortfall_nonneg : (d f : ℤ) → pos 0 ≤ℤ fee_shortfall d f
shortfall_nonneg d f = ground (arith, -ℤ_parts f d)

pub shortfall_none : (d f : ℤ) → fee_shortfall d f ≡ pos 0 → f ≤ℤ d
shortfall_none d f h = elim (Bool-cases (leb_ℤ f d)) [
  | inl e ↦ ground arith
  | inr e ↦
      let difference : f -ℤ d ≡ pos 0 = rw e at h in
      omega (int_laws, ap pos_part difference, ap neg_part difference)
]

-- The available balance that a liquidation leaves, by what was released and what was taken.
abbrev pub balance_left : Position → ℤ → Evaluation → ℤ
balance_left p avail e = avail +ℤ (p.initial_margin -ℤ e.position.initial_margin) -ℤ e.deficit

-- How a position `p`, whose owner had `avail`, leaves a liquidation.
pub record Outcome (p : Position) (avail : ℤ) (e : Evaluation) : Type 0 where
  pub quantities : e.liquidation.quantity +ℤ e.position.quantity ≡ p.quantity
  pub settled :
      ((e.final_status ≡ liquidated) × (e.position.quantity ≡ pos 0))
      ⊎ ((e.final_status ≡ open_position)
          × (pos 0 <ℤ e.position.quantity)
          × (check_liquidation e.position (balance_left p avail e) ≡ false))
  pub margin_left : pos 0 ≤ℤ e.position.initial_margin
  pub covered : pos 0 ≤ℤ balance_left p avail e
  pub nothing_returned : e.total_return ≡ pos 0
  pub fee_paid : e.total_fee ≤ℤ e.deficit

-- The balance that the loop ends with, where there is no gain.
left_balance :
    (a d v r im rest : ℤ)
    → a +ℤ d ≡ v +ℤ r +ℤ pos 0
    → r +ℤ rest ≡ im
    → a ≡ v +ℤ (im -ℤ rest) -ℤ (pos 0 -ℤ (pos 0 -ℤ d))
left_balance a d v r im rest h k =
    omega (int_laws, ap pos_part h, ap neg_part h, ap pos_part k, ap neg_part k)

no_return : (d : ℤ) → pos 0 ≤ℤ d → ltb_ℤ (pos 0) (pos 0 -ℤ d) ≡ false
no_return d h = ground (arith, -ℤ_parts (pos 0) d)

twice_neg : (d : ℤ) → pos 0 -ℤ (pos 0 -ℤ d) ≡ d
twice_neg d = omega int_laws

-- What is left is safe with the balance that is left.
left_safe :
    (p : Position) (mark avail bankruptcy : ℤ) (id : ℕ) (s : Progress)
    → final_mm p s ≤ℤ remaining_equity p mark s
    → s.current_avail
      ≡ balance_left p avail (evaluation_of p mark (liquidation_row id p bankruptcy s) s)
    → check_liquidation
        (evaluation_of p mark (liquidation_row id p bankruptcy s) s).position
        (balance_left p avail (evaluation_of p mark (liquidation_row id p bankruptcy s) s))
      ≡ false
unfolding check_liquidation calculate_position_equity remaining_equity
left_safe p mark avail bankruptcy id s safe left = rw (← left) (ground arith)

pub evaluation-Outcome :
    (p : Position) (mark avail bankruptcy : ℤ) (id : ℕ) (s : Progress)
    → Accounts p avail s
    → IsSettled p mark p.maintenance_margin_rate s
    → s.total_user_credit ≡ pos 0
    → s.total_fee ≤ℤ s.total_user_deduction
    → Outcome p avail (evaluation_of p mark (liquidation_row id p bankruptcy s) s)
evaluation-Outcome p mark avail bankruptcy id s a settled gain paid =
    let none_back = no_return s.total_user_deduction a.deduction in
    let e = evaluation_of p mark (liquidation_row id p bankruptcy s) s in
    let left : s.current_avail ≡ balance_left p avail e =
      rw (gain, none_back)
        (left_balance s.current_avail s.total_user_deduction avail s.total_released_im
          p.initial_margin s.remaining_im (rw gain at a.balance) a.released) in
    record {
      quantities = a.quantities;
      settled = elim settled [
        | inl (full, none_left) ↦ inl (rw full refl, none_left)
        | inr (rest, some_left, safe) ↦
            inr (rw rest refl, some_left, left_safe p mark avail bankruptcy id s safe left)
      ];
      margin_left = a.margin_left;
      covered = subst (λ x. pos 0 ≤ℤ x) left a.covered;
      nothing_returned = rw (gain, none_back) refl;
      fee_paid =
          rw (gain, none_back)
            (subst (λ x. s.total_fee ≤ℤ x) (sym (twice_neg s.total_user_deduction)) paid);
    }
