-- ===== src/Futures/Waterfall.antt =====
-- The liquidation waterfall of `evaluateAndLiquidate` (liquidation.service.ts): the loop that closes a
-- position step by step, and the entries of the one ledger transaction that settles all steps.
use novacex.Prelude.{ℕ, zero, suc, Bool, true, false, List, [], ◌∷◌, ◌++◌, if◌then◌else◌}
use novacex.Prelude.Int.{ℤ, pos, ◌+ℤ◌, ◌-ℤ◌, ltb_ℤ, leb_ℤ}
use novacex.Prelude.Result.{Result, ok, ◌>>=◌}
use novacex.Decimal.Value.{mul_dec}
use novacex.Ledger.{Direction, credit, debit, Pool, available, locked, Entry}
use novacex.Futures.{MarginMode, isolated, cross, Position, FuturesError}
use novacex.Futures.Risk.{
  calculate_notional, calculate_maintenance_margin, calculate_unrealized_pnl,
  calculate_position_equity, whole,
}
use novacex.Futures.Positions.{divided, liquidation_fee_rate}

-- `INSURANCE_FUND_ACCOUNT_ID` and `ADL_SUSPENSE_ACCOUNT_ID`
abbrev pub insurance_fund : ℕ
insurance_fund = 0x11111111111111111111111111111111

abbrev pub adl_suspense : ℕ
adl_suspense = 0x22222222222222222222222222222222

-- `TEST_ONLY_DEFAULT_LIQUIDATION_POLICY`: 0.5 and 100
abbrev pub partial_reduction_step : ℤ
partial_reduction_step = pos 500000000000000000

abbrev pub minimum_notional_bypass : ℤ
minimum_notional_bypass = whole 100

-- The variables of the loop.
pub record Progress : Type 0 where
  pub remaining_quantity : ℤ
  pub remaining_im : ℤ
  pub current_avail : ℤ
  pub total_reduced_quantity : ℤ
  pub total_realized_pnl : ℤ
  pub total_fee : ℤ
  pub total_insurance_delta : ℤ
  pub total_released_im : ℤ
  pub total_user_deduction : ℤ
  pub total_user_credit : ℤ
  pub total_deficit : ℤ
  pub is_fully_liquidated : Bool
  pub is_safe : Bool

abbrev pub start_progress : Position → ℤ → Progress
start_progress p available_balance = record {
  remaining_quantity = p.quantity;
  remaining_im = p.initial_margin;
  current_avail = available_balance;
  total_reduced_quantity = pos 0;
  total_realized_pnl = pos 0;
  total_fee = pos 0;
  total_insurance_delta = pos 0;
  total_released_im = pos 0;
  total_user_deduction = pos 0;
  total_user_credit = pos 0;
  total_deficit = pos 0;
  is_fully_liquidated = false;
  is_safe = false;
}

-- `equity` of what remains of the position, at the mark price.
unfoldable pub remaining_equity : Position → ℤ → Progress → ℤ
unfolding calculate_position_equity
remaining_equity p mark s =
    calculate_position_equity
      (record p {
        quantity = s.remaining_quantity;
        initial_margin = s.remaining_im;
        mark_price = mark;
      })
      s.current_avail

-- `stepQty` before it is compared with what remains.
unfoldable pub proposed_step : ℤ → ℤ → ℤ → ℤ
proposed_step mark equity remaining =
    let half = mul_dec remaining partial_reduction_step in
    if leb_ℤ equity (pos 0)
    then remaining
    else if leb_ℤ minimum_notional_bypass (calculate_notional half mark)
    then half
    else remaining

-- The amounts of one step.
pub record Step : Type 0 where
  pub quantity : ℤ
  pub im : ℤ
  pub realized_pnl : ℤ
  pub fee : ℤ

abbrev pub step_of : Position → ℤ → ℤ → ℤ → ℤ → Step
step_of p mark quantity im ratio = record {
  quantity = quantity;
  im = mul_dec im ratio;
  realized_pnl = calculate_unrealized_pnl p.side quantity p.entry_price mark;
  fee = mul_dec (calculate_notional quantity mark) liquidation_fee_rate;
}

-- `actualDeduction`
abbrev pub actual_deduction : MarginMode → ℤ → ℤ → ℤ → ℤ
actual_deduction isolated im virtual_avail loss = if leb_ℤ loss im then loss else im
actual_deduction cross im virtual_avail loss =
    if leb_ℤ loss virtual_avail then loss else virtual_avail

-- `deficitToInsurance`: the loss that is not covered, less the fee, and never below zero
abbrev pub deficit_to_insurance : ℤ → ℤ → ℤ → ℤ
deficit_to_insurance loss deduction fee =
    let deficit = loss -ℤ deduction -ℤ fee in if ltb_ℤ deficit (pos 0) then pos 0 else deficit

-- A step with a gain for the user, and one with a loss.
abbrev pub gain_step : Step → ℤ → Progress → Progress
gain_step t net s = record s {
  total_user_credit = s.total_user_credit +ℤ net;
  current_avail = s.current_avail +ℤ (t.im +ℤ net);
  total_insurance_delta = s.total_insurance_delta +ℤ t.fee;
}

abbrev pub loss_step : MarginMode → Step → ℤ → Progress → Progress
loss_step mode t net s =
    let loss = pos 0 -ℤ net in
    let deduction = actual_deduction mode t.im (s.current_avail +ℤ t.im) loss in
    let deficit = deficit_to_insurance loss deduction t.fee in
    record s {
      total_user_deduction = s.total_user_deduction +ℤ deduction;
      total_deficit = s.total_deficit +ℤ deficit;
      current_avail = s.current_avail +ℤ t.im -ℤ deduction;
      total_insurance_delta = s.total_insurance_delta +ℤ (t.fee -ℤ deficit);
    }

-- What every step does besides.
abbrev pub closed_step : Step → Bool → Progress → Progress
closed_step t fully s = record s {
  total_released_im = s.total_released_im +ℤ t.im;
  total_reduced_quantity = s.total_reduced_quantity +ℤ t.quantity;
  total_realized_pnl = s.total_realized_pnl +ℤ t.realized_pnl;
  total_fee = s.total_fee +ℤ t.fee;
  remaining_quantity = s.remaining_quantity -ℤ t.quantity;
  remaining_im = s.remaining_im -ℤ t.im;
  is_fully_liquidated = fully;
}

unfoldable pub settle_step : MarginMode → Step → Bool → Progress → Progress
settle_step mode t fully s =
    let net = t.realized_pnl -ℤ t.fee in
    closed_step t fully (if ltb_ℤ (pos 0) net then gain_step t net s else loss_step mode t net s)

-- One round of the loop, when what remains is not safe.
unfoldable pub liquidation_step : Position → ℤ → ℤ → Progress → Result FuturesError Progress
unfolding proposed_step settle_step
liquidation_step p mark equity s =
    let proposed = proposed_step mark equity s.remaining_quantity in
    let fully = leb_ℤ s.remaining_quantity proposed in
    let quantity = if fully then s.remaining_quantity else proposed in
    do
      ratio ← divided quantity s.remaining_quantity
      ok (settle_step p.margin_mode (step_of p mark quantity s.remaining_im ratio) fully s)

-- `while (!isFullyLiquidated && !isSafe)`, on fuel: the rounds left.
unfoldable pub liquidation_loop : ℕ → Position → ℤ → ℤ → Progress → Result FuturesError Progress
unfolding remaining_equity liquidation_step
liquidation_loop zero p mark rate s = ok s
liquidation_loop (suc fuel) p mark rate s =
    let equity = remaining_equity p mark s in
    let mm = calculate_maintenance_margin s.remaining_quantity p.entry_price rate in
    let rest = (do t ← liquidation_step p mark equity s; liquidation_loop fuel p mark rate t) in
    if s.is_fully_liquidated
    then ok s
    else if leb_ℤ mm equity
    then ok (record s { is_safe = true })
    else rest

abbrev pub fund_entry : ℕ → ℕ → ℤ → Direction → Pool → Entry
fund_entry account asset amount direction pool = record {
  account = account;
  asset = asset;
  direction = direction;
  amount = amount;
  pool = pool;
}

-- An entry of an amount that is above zero.
abbrev pub if_positive : ℤ → List Entry → List Entry
if_positive amount es = if ltb_ℤ (pos 0) amount then es else []

abbrev pub released_entries : ℕ → ℕ → ℤ → List Entry
released_entries account asset im =
    if_positive im
      (fund_entry account asset im debit locked ∷ fund_entry account asset im credit available ∷ [])

abbrev pub deduction_entries : ℕ → ℕ → ℤ → ℤ → List Entry
deduction_entries account asset deduction fee = if_positive deduction (
    fund_entry account asset deduction debit available
    ∷ if_positive (deduction -ℤ fee)
        (fund_entry insurance_fund asset (deduction -ℤ fee) credit available ∷ []))

-- What the insurance fund draws and what auto-deleveraging has to recover, of a deficit.
abbrev pub fund_draw : ℤ → ℤ → ℤ
fund_draw vault deficit = if ltb_ℤ vault deficit then vault else deficit

abbrev pub adl_draw : ℤ → ℤ → ℤ
adl_draw vault deficit =
    if ltb_ℤ (pos 0) deficit
    then (if ltb_ℤ vault deficit then deficit -ℤ vault else pos 0)
    else pos 0

abbrev pub deficit_entries : ℕ → ℤ → ℤ → List Entry
deficit_entries asset vault deficit = if_positive deficit (
    if_positive (fund_draw vault deficit)
      (fund_entry insurance_fund asset (fund_draw vault deficit) debit available ∷ [])
    ++ (if_positive (adl_draw vault deficit)
          (fund_entry adl_suspense asset (adl_draw vault deficit) debit available ∷ [])
        ++ fund_entry insurance_fund asset deficit credit available ∷ []))

-- The entries of the settlement; `vault` is the insurance fund's available balance.
unfoldable pub liquidation_entries : Position → ℕ → ℤ → Progress → List Entry
liquidation_entries p asset vault s =
    released_entries p.account asset s.total_released_im
    ++ (if_positive s.total_user_credit
          (fund_entry p.account asset s.total_user_credit credit available ∷ [])
        ++ (deduction_entries p.account asset s.total_user_deduction s.total_fee
            ++ (if_positive s.total_fee
                  (fund_entry insurance_fund asset s.total_fee credit available ∷ [])
                ++ deficit_entries asset vault s.total_deficit)))
