-- ===== src/Futures/Laws/Accounts.antt =====
-- One step of the liquidation waterfall (liquidation.service.ts): the running totals stay in step.
use mathlib.Core.Path.{ap}
use novacex.Prelude.{◌≡◌, sym, inl, inr, Bool, true, false, Bool-cases, arith}
use novacex.Prelude.Int.{
  ℤ, pos, ◌+ℤ◌, ◌-ℤ◌, ◌≤ℤ◌, ltb_ℤ, int_laws, -ℤ_parts, +ℤ_parts, pos_part, neg_part, ltb_ℤ→lt,
  ltb_ℤ→le,
}
use novacex.Futures.{MarginMode, isolated, cross, Position}
use novacex.Futures.Waterfall.{
  Progress, start_progress, Step, gain_step, loss_step, closed_step, actual_deduction,
  deficit_to_insurance, settle_step,
}

-- The totals of a liquidation of `p` that began with `avail` in the available balance.
pub record Accounts (p : Position) (avail : ℤ) (s : Progress) : Type 0 where
  pub released : s.total_released_im +ℤ s.remaining_im ≡ p.initial_margin
  pub quantities : s.total_reduced_quantity +ℤ s.remaining_quantity ≡ p.quantity
  pub balance :
      s.current_avail +ℤ s.total_user_deduction
      ≡ avail +ℤ s.total_released_im +ℤ s.total_user_credit
  pub insurance : s.total_insurance_delta +ℤ s.total_deficit ≡ s.total_fee
  pub margin_left : pos 0 ≤ℤ s.remaining_im
  pub margin_freed : pos 0 ≤ℤ s.total_released_im
  pub covered : pos 0 ≤ℤ s.current_avail
  pub deduction : pos 0 ≤ℤ s.total_user_deduction
  pub credit : pos 0 ≤ℤ s.total_user_credit
  pub deficit : pos 0 ≤ℤ s.total_deficit
  pub fee : pos 0 ≤ℤ s.total_fee

pub start_progress-Accounts :
    (p : Position) (avail : ℤ)
    → pos 0 ≤ℤ p.initial_margin
    → pos 0 ≤ℤ avail
    → Accounts p avail (start_progress p avail)
start_progress-Accounts p avail im_pos avail_pos = record {
  released = omega int_laws;
  quantities = omega int_laws;
  balance = omega int_laws;
  insurance = omega int_laws;
  margin_left = im_pos;
  margin_freed = omega arith;
  covered = avail_pos;
  deduction = omega arith;
  credit = omega arith;
  deficit = omega arith;
  fee = omega arith;
}

-- What is taken is within the loss and within what the user has.
deduction_within :
    (mode : MarginMode) (im virtual loss : ℤ)
    → pos 0 ≤ℤ im
    → im ≤ℤ virtual
    → pos 0 ≤ℤ loss
    → (pos 0 ≤ℤ actual_deduction mode im virtual loss)
      × (actual_deduction mode im virtual loss ≤ℤ virtual)
deduction_within isolated im virtual loss a b c = (ground arith, ground arith)
deduction_within cross im virtual loss a b c = (ground arith, ground arith)

deficit_nonneg : (loss deduction fee : ℤ) → pos 0 ≤ℤ deficit_to_insurance loss deduction fee
deficit_nonneg loss deduction fee = ground arith

add_nonneg : (a b : ℤ) → pos 0 ≤ℤ a → pos 0 ≤ℤ b → pos 0 ≤ℤ a +ℤ b
add_nonneg a b h k = ground (arith, +ℤ_parts a b)

sub_nonneg : (a b : ℤ) → b ≤ℤ a → pos 0 ≤ℤ a -ℤ b
sub_nonneg a b h = ground (arith, -ℤ_parts a b)

moved : (a b c x : ℤ) → a +ℤ b ≡ c → a +ℤ x +ℤ (b -ℤ x) ≡ c
moved a b c x h = rw (sym h) (omega int_laws)

gain_balance :
    (a d v r c im net : ℤ)
    → a +ℤ d ≡ v +ℤ r +ℤ c
    → a +ℤ (im +ℤ net) +ℤ d ≡ v +ℤ (r +ℤ im) +ℤ (c +ℤ net)
gain_balance a d v r c im net h = omega (int_laws, ap pos_part h, ap neg_part h)

loss_balance :
    (a d v r c im x : ℤ) → a +ℤ d ≡ v +ℤ r +ℤ c → a +ℤ im -ℤ x +ℤ (d +ℤ x) ≡ v +ℤ (r +ℤ im) +ℤ c
loss_balance a d v r c im x h = omega (int_laws, ap pos_part h, ap neg_part h)

gain_insurance : (i d f fee : ℤ) → i +ℤ d ≡ f → i +ℤ fee +ℤ d ≡ f +ℤ fee
gain_insurance i d f fee h = omega (int_laws, ap pos_part h, ap neg_part h)

loss_insurance : (i d f fee x : ℤ) → i +ℤ d ≡ f → i +ℤ (fee -ℤ x) +ℤ (d +ℤ x) ≡ f +ℤ fee
loss_insurance i d f fee x h = omega (int_laws, ap pos_part h, ap neg_part h)

loss_nonneg : (net : ℤ) → ltb_ℤ (pos 0) net ≡ false → pos 0 ≤ℤ pos 0 -ℤ net
loss_nonneg net h = sub_nonneg (pos 0) net (ltb_ℤ→le (pos 0) net h)

left_within : (a im : ℤ) → pos 0 ≤ℤ a → im ≤ℤ a +ℤ im
left_within a im h = ground (arith, +ℤ_parts a im)

module _ (p : Position) (avail : ℤ) (t : Step) (fully : Bool) (s : Progress) where
  gain_step-Accounts :
      Accounts p avail s
      → pos 0 ≤ℤ t.im
      → t.im ≤ℤ s.remaining_im
      → pos 0 ≤ℤ t.fee
      → ltb_ℤ (pos 0) (t.realized_pnl -ℤ t.fee) ≡ true
      → Accounts p avail (closed_step t fully (gain_step t (t.realized_pnl -ℤ t.fee) s))
  gain_step-Accounts a im_pos im_within fee_pos won =
      let net_pos = ltb_ℤ→lt (pos 0) (t.realized_pnl -ℤ t.fee) won in
      record {
        released = moved _ _ _ t.im a.released;
        quantities = moved _ _ _ t.quantity a.quantities;
        balance = gain_balance _ _ avail _ _ t.im _ a.balance;
        insurance = gain_insurance _ _ _ t.fee a.insurance;
        margin_left = sub_nonneg _ _ im_within;
        margin_freed = add_nonneg _ _ a.margin_freed im_pos;
        covered =
            add_nonneg _ _ a.covered
              (add_nonneg t.im (t.realized_pnl -ℤ t.fee) im_pos (omega arith));
        deduction = a.deduction;
        credit = add_nonneg _ (t.realized_pnl -ℤ t.fee) a.credit (omega arith);
        deficit = a.deficit;
        fee = add_nonneg _ _ a.fee fee_pos;
      }

  loss_step-Accounts :
      (mode : MarginMode)
      → Accounts p avail s
      → pos 0 ≤ℤ t.im
      → t.im ≤ℤ s.remaining_im
      → pos 0 ≤ℤ t.fee
      → ltb_ℤ (pos 0) (t.realized_pnl -ℤ t.fee) ≡ false
      → Accounts p avail (closed_step t fully (loss_step mode t (t.realized_pnl -ℤ t.fee) s))
  loss_step-Accounts mode a im_pos im_within fee_pos lost =
      let taken =
        deduction_within mode t.im (s.current_avail +ℤ t.im) (pos 0 -ℤ (t.realized_pnl -ℤ t.fee))
          im_pos (left_within s.current_avail t.im a.covered)
          (loss_nonneg (t.realized_pnl -ℤ t.fee) lost) in
      record {
        released = moved _ _ _ t.im a.released;
        quantities = moved _ _ _ t.quantity a.quantities;
        balance = loss_balance _ _ avail _ _ t.im _ a.balance;
        insurance = loss_insurance _ _ _ t.fee _ a.insurance;
        margin_left = sub_nonneg _ _ im_within;
        margin_freed = add_nonneg _ _ a.margin_freed im_pos;
        covered = sub_nonneg _ _ taken.1;
        deduction = add_nonneg _ _ a.deduction taken.0;
        credit = a.credit;
        deficit = add_nonneg _ _ a.deficit (deficit_nonneg _ _ t.fee);
        fee = add_nonneg _ _ a.fee fee_pos;
      }

-- A step keeps the totals, whatever its quantity, if its share of the margin is within what is left.
pub settle_step-Accounts :
    (p : Position) (avail : ℤ) (mode : MarginMode) (t : Step) (fully : Bool) (s : Progress)
    → Accounts p avail s
    → pos 0 ≤ℤ t.im
    → t.im ≤ℤ s.remaining_im
    → pos 0 ≤ℤ t.fee
    → Accounts p avail (settle_step mode t fully s)
unfolding settle_step
settle_step-Accounts p avail mode t fully s a im_pos im_within fee_pos =
    elim (Bool-cases (ltb_ℤ (pos 0) (t.realized_pnl -ℤ t.fee))) [
      | inl e ↦
          rw (e, settle_step) (gain_step-Accounts p avail t fully s a im_pos im_within fee_pos e)
      | inr e ↦
          rw (e, settle_step)
            (loss_step-Accounts p avail t fully s mode a im_pos im_within fee_pos e)
    ]
