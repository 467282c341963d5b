-- ===== src/Futures/TpSl/Sweep.antt =====
-- The triggers and their execution (`checkAllActiveTriggers` and `executeTrigger`, tpsl.service.ts).
use novacex.Prelude.{
  ℕ, Bool, true, false, ◌&&◌, ◌||◌, not, Option, none, some, List, [], ◌∷◌, ◌==◌, if◌then◌else◌,
}
use novacex.Prelude.Int.{ℤ, pos, leb_ℤ}
use novacex.Prelude.Result.{Result, err, ok}
use novacex.Futures.{PositionSide, long, short, MarginMode, Position}
use novacex.Futures.Positions.{is_open}
use novacex.Futures.Evaluation.{find_position}
use novacex.Futures.TpSl.Config.{TpSlConfig, TpSlStore, find_owner}

pub data TriggerType : Type 0 where
  take_profit stop_loss : TriggerType

abbrev pub reaches_take_profit : PositionSide → ℤ → ℤ → Bool
reaches_take_profit long mark price = leb_ℤ price mark
reaches_take_profit short mark price = leb_ℤ mark price

abbrev pub reaches_stop_loss : PositionSide → ℤ → ℤ → Bool
reaches_stop_loss long mark price = leb_ℤ mark price
reaches_stop_loss short mark price = leb_ℤ price mark

abbrev pub is_reached : Bool → Option ℤ → (ℤ → Bool) → Option ℤ
is_reached enabled none test = none
is_reached enabled (some price) test = if enabled && test price then some price else none

-- The trigger of a configuration at a mark price: the take-profit before the stop-loss.
unfoldable pub trigger_of : TpSlConfig → ℤ → Option (TriggerType × ℤ)
trigger_of c mark =
    elim (is_reached c.take_profit_enabled c.take_profit_price
      (reaches_take_profit c.position_side mark)) [
        | some price ↦ some (take_profit, price)
        | none ↦
            elim (is_reached c.stop_loss_enabled c.stop_loss_price
              (reaches_stop_loss c.position_side mark)) [
                | some price ↦ some (stop_loss, price)
                | none ↦ none
              ]
      ]

abbrev pub is_armed : TpSlConfig → Bool
is_armed c = c.take_profit_enabled || c.stop_loss_enabled

-- The claim: it disarms the row, and says whether the row was armed.
unfoldable pub claim_config : ℕ → List TpSlConfig → List TpSlConfig × Bool
claim_config id [] = ([], false)
claim_config id (c ∷ cs) =
    let (rest, found) = claim_config id cs in
    if c.id == id && is_armed c
    then (record c { take_profit_enabled = false; stop_loss_enabled = false } ∷ rest, true)
    else (c ∷ rest, found)

-- The market order that closes a position.
pub record CloseOrder : Type 0 where
  pub account : ℕ
  pub symbol : ℕ
  pub position_side : PositionSide
  pub quantity : ℤ
  pub leverage : ℕ
  pub margin_mode : MarginMode

pub data PlaceError : Type 0 where
  no_position_to_close : PlaceError
  place_failed : ℕ → PlaceError

-- `futuresService.placeOrder`, as far as it is seen here: the order's identifier or what it throws,
-- and the rows of futures_positions after it.
abbrev pub PlaceOrder : Type 0
PlaceOrder = CloseOrder → List Position → Result PlaceError ℕ × List Position

pub data TriggerOutcome : Type 0 where
  executed : ℕ → TriggerOutcome
  skipped : TriggerOutcome
  failed : ℕ → TriggerOutcome

-- `TpSlExecutionResult`, less its time.
pub record ExecutionResult : Type 0 where
  pub config : ℕ
  pub position : ℕ
  pub trigger_type : TriggerType
  pub trigger_price : ℤ
  pub observed_mark_price : ℤ
  pub outcome : TriggerOutcome

abbrev pub placed_outcome : Result PlaceError ℕ → TriggerOutcome
placed_outcome (ok order) = executed order
placed_outcome (err no_position_to_close) = skipped
placed_outcome (err (place_failed reason)) = failed reason

abbrev pub close_order : TpSlConfig → Position → CloseOrder
close_order c p = record {
  account = c.account;
  symbol = c.symbol;
  position_side = c.position_side;
  quantity = p.quantity;
  leverage = p.leverage;
  margin_mode = p.margin_mode;
}

-- The position that is still open with a quantity.
abbrev pub closable : ℕ → List Position → Option Position
closable id rows = elim (find_position id rows) [
  | none ↦ none
  | some p ↦ if is_open p.status && not (leb_ℤ p.quantity (pos 0)) then some p else none
]

-- The close of a claimed trigger's position.
unfoldable pub close_position : PlaceOrder → TpSlConfig → TpSlStore → TriggerOutcome × TpSlStore
close_position place c x = elim (closable c.position x.positions) [
  | none ↦ (skipped, x)
  | some p ↦
      let (placed, positions) = place (close_order c p) x.positions in
      (placed_outcome placed, record x { positions = positions })
]

-- `executeTrigger`
unfoldable pub execute_trigger :
    PlaceOrder → TpSlConfig → TriggerType → ℤ → ℤ → TpSlStore → Option ExecutionResult × TpSlStore
unfolding claim_config close_position
execute_trigger place c type price mark x =
    let (configs, claimed) = claim_config c.id x.configs in
    let (outcome, y) = close_position place c (record x { configs = configs }) in
    if claimed
    then (
      some (record {
        config = c.id;
        position = c.position;
        trigger_type = type;
        trigger_price = price;
        observed_mark_price = mark;
        outcome = outcome;
      }),
      y,
    )
    else (none, x)

-- The rows of the sweep: armed, with an open position and an account.
abbrev pub is_candidate : TpSlStore → TpSlConfig → Bool
is_candidate x c =
    is_armed c
    && elim (find_position c.position x.positions) [ none ↦ false | some p ↦ is_open p.status ]
    && elim (find_owner c.account x.accounts) [ none ↦ false | some user ↦ true ]

unfoldable pub sweep_candidates : TpSlStore → List TpSlConfig → List TpSlConfig
sweep_candidates x [] = []
sweep_candidates x (c ∷ cs) =
    let rest = sweep_candidates x cs in if is_candidate x c then c ∷ rest else rest

-- A mark price that is above zero: the override, else the market's (none where it throws).
abbrev pub sweep_price : (ℕ → Option ℤ) → (ℕ → Option ℤ) → ℕ → Option ℤ
sweep_price overrides market symbol = elim (overrides symbol) [
  | some mark ↦ if leb_ℤ mark (pos 0) then none else some mark
  | none ↦ elim (market symbol) [
    | some mark ↦ if leb_ℤ mark (pos 0) then none else some mark
    | none ↦ none
  ]
]

-- One row of the sweep.
unfoldable pub check_trigger :
    PlaceOrder → Option ℤ → TpSlConfig → TpSlStore → Option ExecutionResult × TpSlStore
unfolding execute_trigger trigger_of
check_trigger place none c x = (none, x)
check_trigger place (some mark) c x = elim (trigger_of c mark) [
  | none ↦ (none, x)
  | some (type, price) ↦ execute_trigger place c type price mark x
]

abbrev pub with_result : Option ExecutionResult → List ExecutionResult → List ExecutionResult
with_result none rs = rs
with_result (some r) rs = r ∷ rs

unfoldable pub sweep :
    PlaceOrder → (ℕ → Option ℤ) → List TpSlConfig → TpSlStore → List ExecutionResult × TpSlStore
unfolding check_trigger
sweep place price [] x = ([], x)
sweep place price (c ∷ cs) x =
    let (r, y) = check_trigger place (price c.symbol) c x in
    let (rs, z) = sweep place price cs y in (with_result r rs, z)

-- `checkAllActiveTriggers`
unfoldable pub check_all_active_triggers :
    PlaceOrder → (ℕ → Option ℤ) → (ℕ → Option ℤ) → TpSlStore → List ExecutionResult × TpSlStore
unfolding sweep sweep_candidates
check_all_active_triggers place overrides market x =
    sweep place (sweep_price overrides market) (sweep_candidates x x.configs) x
