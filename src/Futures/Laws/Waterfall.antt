-- ===== src/Futures/Laws/Waterfall.antt =====
-- The loop of the liquidation waterfall (liquidation.service.ts): it ends, settled or safe, and
-- keeps its accounts.
use mathlib.Core.Path.{ap, subst}
use novacex.Prelude.{
  ℕ, zero, suc, ◌<◌, ◌≡◌, refl, sym, ◌∙◌, ◌⊎◌, inl, inr, Bool, true, false, Bool-cases, arith, ◌||◌,
  if◌then◌else◌,
}
use novacex.Prelude.Int.{ℤ, pos, ◌-ℤ◌, ◌≤ℤ◌, ◌<ℤ◌, pos_part, leb_ℤ, int_laws, -ℤ_parts}
use novacex.Prelude.Result.{ok, ◌>>=◌}
use novacex.Decimal.Value.{mul_dec, div_dec}
use novacex.Spot.Laws.Settlement.{mul_dec_nonneg}
use novacex.Futures.{Position}
use novacex.Futures.Risk.{calculate_notional, calculate_maintenance_margin}
use novacex.Futures.Positions.{divided, liquidation_fee_rate}
use novacex.Futures.Waterfall.{
  partial_reduction_step, minimum_notional_bypass, Progress, start_progress, remaining_equity,
  proposed_step, step_of, settle_step, liquidation_step, liquidation_loop,
}
use novacex.Futures.Laws.Reduction.{share_within}
use novacex.Futures.Laws.Accounts.{Accounts, start_progress-Accounts, settle_step-Accounts}

notional_positive :
    (q mark : ℤ) → leb_ℤ minimum_notional_bypass (calculate_notional q mark) ≡ true → pos 0 <ℤ q
unfolding calculate_notional
notional_positive q mark h = ground arith

notional_nonneg : (q mark : ℤ) → pos 0 ≤ℤ calculate_notional q mark
unfolding calculate_notional
notional_nonneg q mark = elim (Bool-cases (leb_ℤ q (pos 0) || leb_ℤ mark (pos 0))) [
  | inl e ↦ rw (e, calculate_notional) (omega arith)
  | inr e ↦ rw (e, calculate_notional) (mul_dec_nonneg q mark (ground arith) (ground arith))
]

-- A proposed step is the whole of what is left, or above zero.
proposed-cases :
    (mark equity r : ℤ) → (proposed_step mark equity r ≡ r) ⊎ (pos 0 <ℤ proposed_step mark equity r)
unfolding proposed_step
proposed-cases mark equity r =
    let half = mul_dec r partial_reduction_step in
    elim (Bool-cases (leb_ℤ equity (pos 0))) [
      | inl e ↦ inl (rw (e, proposed_step) refl)
      | inr e ↦ elim (Bool-cases (leb_ℤ minimum_notional_bypass (calculate_notional half mark))) [
        | inl m ↦ inr (rw (e, m, proposed_step) (notional_positive half mark m))
        | inr m ↦ inl (rw (e, m, proposed_step) refl)
      ]
    ]

-- What a round leaves: nothing, or fewer units than before.
pub record Advanced (before after : Progress) : Type 0 where
  pub status :
      ((after.is_fully_liquidated ≡ true) × (after.remaining_quantity ≡ pos 0))
      ⊎ ((after.is_fully_liquidated ≡ false)
          × (pos 0 <ℤ after.remaining_quantity)
          × (after.remaining_quantity <ℤ before.remaining_quantity))

-- How a run ends: everything liquidated, or what is left is safe at the price.
abbrev pub IsSettled : Position → ℤ → ℤ → Progress → Type 0
IsSettled p mark rate s =
    ((s.is_fully_liquidated ≡ true) × (s.remaining_quantity ≡ pos 0))
    ⊎ ((s.is_fully_liquidated ≡ false)
        × (pos 0 <ℤ s.remaining_quantity)
        × (calculate_maintenance_margin s.remaining_quantity p.entry_price rate
            ≤ℤ remaining_equity p mark s))

remaining-settle_step :
    (p : Position) (mark q im ratio : ℤ) (fully : Bool) (s : Progress)
    → let t = settle_step p.margin_mode (step_of p mark q im ratio) fully s in
      (t.remaining_quantity ≡ s.remaining_quantity -ℤ q) × (t.is_fully_liquidated ≡ fully)
unfolding settle_step
remaining-settle_step p mark q im ratio fully s = (ground arith, ground arith)

divided_ok : (a b : ℤ) → pos 0 <ℤ b → divided a b ≡ ok (div_dec a b)
divided_ok a b h = ground arith

else_twice :
    {A : Type 0} (b c : Bool) (x y z : A)
    → b ≡ false
    → c ≡ false
    → (if b then x else if c then y else z) ≡ z
else_twice b c x y z h k = rw (h, k) refl

sub_self : (a : ℤ) → a -ℤ a ≡ pos 0
sub_self a = omega int_laws

module _ (p : Position) (mark avail : ℤ) where
  -- A round of quantity `q`.
  abbrev round : ℤ → Bool → Progress → Progress
  round q fully s =
      settle_step p.margin_mode (step_of p mark q s.remaining_im (div_dec q s.remaining_quantity))
        fully s

  round-Accounts :
      (q : ℤ) (fully : Bool) (s : Progress)
      → Accounts p avail s
      → pos 0 <ℤ q
      → q ≤ℤ s.remaining_quantity
      → Accounts p avail (round q fully s)
  round-Accounts q fully s a q_pos within =
      let share = share_within s.remaining_im q s.remaining_quantity a.margin_left q_pos within in
      settle_step-Accounts p avail p.margin_mode
        (step_of p mark q s.remaining_im (div_dec q s.remaining_quantity)) fully s a share.0 share.1
        (mul_dec_nonneg _ liquidation_fee_rate (notional_nonneg q mark) (omega arith))

  full-Advanced : (s : Progress) → Advanced s (round s.remaining_quantity true s)
  full-Advanced s =
      let kept =
        remaining-settle_step p mark s.remaining_quantity s.remaining_im
          (div_dec s.remaining_quantity s.remaining_quantity) true s in
      record { status = inl (kept.1, kept.0 ∙ sub_self s.remaining_quantity) }

  part-Advanced :
      (q : ℤ) (s : Progress) → pos 0 <ℤ q → q <ℤ s.remaining_quantity → Advanced s (round q false s)
  part-Advanced q s q_pos below =
      let kept =
        remaining-settle_step p mark q s.remaining_im (div_dec q s.remaining_quantity) false s in
      record {
        status = inr (
          kept.1,
          subst (λ x. pos 0 <ℤ x) (sym kept.0) (ground (arith, -ℤ_parts s.remaining_quantity q)),
          subst (λ x. x <ℤ s.remaining_quantity) (sym kept.0)
              (ground (arith, -ℤ_parts s.remaining_quantity q)),
        );
      }

  step_ok :
      (equity : ℤ) (s : Progress)
      → Accounts p avail s
      → pos 0 <ℤ s.remaining_quantity
      → (t : Progress) × (liquidation_step p mark equity s ≡ ok t)
        × Accounts p avail t
        × Advanced s t
  unfolding liquidation_step
  step_ok equity s a r_pos =
      let r = s.remaining_quantity in
      let q = proposed_step mark equity r in
      elim (Bool-cases (leb_ℤ r q)) [
        | inl e ↦ (
          round r true s,
          rw (e, liquidation_step, divided_ok r r r_pos) refl,
          round-Accounts r true s a r_pos (omega arith),
          full-Advanced s,
        )
        | inr e ↦ elim (proposed-cases mark equity r) [
          | inl same ↦ absurd (ground (arith, same))
          | inr q_pos ↦ (
            round q false s,
            rw (e, liquidation_step, divided_ok q r r_pos) refl,
            round-Accounts q false s a q_pos (ground arith),
            part-Advanced q s q_pos (ground arith),
          )
        ]
      ]

  -- Where a run of `fuel` rounds may start.
  abbrev Ready : ℕ → Progress → Type 0
  Ready fuel s =
      ((s.is_fully_liquidated ≡ true) × (s.remaining_quantity ≡ pos 0))
      ⊎ ((s.is_fully_liquidated ≡ false)
          × (pos 0 <ℤ s.remaining_quantity)
          × (pos_part s.remaining_quantity < fuel))

  below_bound : (a b : ℤ) (n : ℕ) → pos 0 <ℤ b → b <ℤ a → pos_part a < suc n → pos_part b < n
  below_bound a b n h k bound = ground arith

  Ready-after :
      (fuel : ℕ) (s t : Progress)
      → pos_part s.remaining_quantity < suc fuel
      → pos 0 <ℤ s.remaining_quantity
      → Advanced s t
      → Ready fuel t
  Ready-after fuel s t bound r_pos a = elim a.status [
    | inl done ↦ inl done
    | inr (running, left, below) ↦ inr (running, left, below_bound _ _ fuel left below bound)
  ]

  loop_continues :
      (fuel : ℕ) (rate : ℤ) (s t : Progress)
      → s.is_fully_liquidated ≡ false
      → leb_ℤ
          (calculate_maintenance_margin s.remaining_quantity p.entry_price rate)
          (remaining_equity p mark s)
        ≡ false
      → liquidation_step p mark (remaining_equity p mark s) s ≡ ok t
      → liquidation_loop (suc fuel) p mark rate s ≡ liquidation_loop fuel p mark rate t
  unfolding liquidation_loop
  loop_continues fuel rate s t running unsafe stepped =
      else_twice _ _ _ _ _ running unsafe
      ∙ ap (λ m. m >>= (λ u. liquidation_loop fuel p mark rate u)) stepped

  loop_ok :
      (fuel : ℕ) (rate : ℤ) (s : Progress)
      → Accounts p avail s
      → Ready fuel s
      → (t : Progress) × (liquidation_loop fuel p mark rate s ≡ ok t)
        × Accounts p avail t
        × IsSettled p mark rate t
  unfolding liquidation_loop remaining_equity
  loop_ok zero rate s a (inl done) = (s, refl, a, inl done)
  loop_ok zero rate s a (inr (running, left, bound)) = absurd (omega arith)
  loop_ok (suc fuel) rate s a (inl done) = (s, rw (done.0, liquidation_loop) refl, a, inl done)
  loop_ok (suc fuel) rate s a (inr (running, left, bound)) =
      let equity = remaining_equity p mark s in
      let mm = calculate_maintenance_margin s.remaining_quantity p.entry_price rate in
      let (t, stepped, b, moved) = step_ok equity s a left in
      let (end, ran, c, settled) = loop_ok fuel rate t b (Ready-after fuel s t bound left moved) in
      elim (Bool-cases (leb_ℤ mm equity)) [
        | inl e ↦ (
          record s { is_safe = true },
          rw (running, e, liquidation_loop) refl,
          record {
            released = a.released;
            quantities = a.quantities;
            balance = a.balance;
            insurance = a.insurance;
            margin_left = a.margin_left;
            margin_freed = a.margin_freed;
            covered = a.covered;
            deduction = a.deduction;
            credit = a.credit;
            deficit = a.deficit;
            fee = a.fee;
          },
          inr (running, left, ground arith),
        )
        | inr e ↦ (end, loop_continues fuel rate s t running e stepped ∙ ran, c, settled)
      ]

-- The loop of a liquidation always ends, for an open position of some quantity whose margin, and
-- whose owner's available balance, are not negative, with a round for each unit of quantity as fuel.
-- It ends with nothing left, or with a rest whose equity covers its maintenance margin. The margin
-- released and the margin left make up the margin, the quantities likewise; the balance that the
-- owner ends with is what it began with, plus margin released and gains, less deductions, and is
-- never negative; and what the insurance fund gains is the fees less the deficit.
pub liquidation_loop-IsSettled :
    (p : Position) (mark rate avail : ℤ) (fuel : ℕ)
    → pos 0 <ℤ p.quantity
    → pos 0 ≤ℤ p.initial_margin
    → pos 0 ≤ℤ avail
    → pos_part p.quantity < fuel
    → (s : Progress) × (liquidation_loop fuel p mark rate (start_progress p avail) ≡ ok s)
      × Accounts p avail s
      × IsSettled p mark rate s
liquidation_loop-IsSettled p mark rate avail fuel q_pos im_pos avail_pos bound =
    loop_ok p mark avail fuel rate (start_progress p avail)
      (start_progress-Accounts p avail im_pos avail_pos) (inr (refl, q_pos, bound))
