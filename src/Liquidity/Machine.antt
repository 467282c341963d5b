-- ===== src/Liquidity/Machine.antt =====
-- `ExecutionStateMachine` (stateMachine.ts) and `validateStateTransition` (executionState.ts).
use novacex.Prelude.{
  ℕ, Bool, true, false, not, ◌&&◌, ◌||◌, Option, none, some, [], ◌∷◌, ◌==◌, ltb, if◌then◌else◌,
}
use novacex.Prelude.Result.{Result, err, ok, ◌>>=◌}
use novacex.Decimal.{Text}
use novacex.Liquidity.{
  ExecutionStatus, created, validated, submitted, acknowledged, partially_filled, filled, cancelled,
  rejected, failed, unknown, reconciling, confirmed, status_eq, has, terminal_states,
  valid_transitions,
}

unfoldable pub is_terminal : ExecutionStatus → Bool
is_terminal s = has terminal_states s

unfoldable pub can_retry : ExecutionStatus → Bool
can_retry s =
    if has (unknown ∷ submitted ∷ acknowledged ∷ partially_filled ∷ reconciling ∷ []) s
    then false
    else has (failed ∷ rejected ∷ created ∷ validated ∷ []) s

unfoldable pub is_valid_transition : ExecutionStatus → ExecutionStatus → Bool
is_valid_transition from to =
    status_eq from to && status_eq from partially_filled
    || status_eq from to && status_eq from reconciling
    || has (valid_transitions from) to

-- `validateStateTransition`: whether it returns.
unfoldable pub validate_state_transition : ExecutionStatus → ExecutionStatus → Bool
validate_state_transition current next =
    not (status_eq current unknown && not (status_eq next reconciling))
    && not (
        status_eq current reconciling
        && not
            (has (confirmed ∷ failed ∷ filled ∷ partially_filled ∷ cancelled ∷ rejected ∷ []) next))
    && not
        (has (filled ∷ cancelled ∷ rejected ∷ failed ∷ []) current && not (status_eq current next))

pub data ReconciliationOutcome : Type 0 where
  still_unknown not_found still_open outcome_partially_filled outcome_filled : ReconciliationOutcome
  outcome_cancelled outcome_rejected : ReconciliationOutcome

-- `ExecutionStateEvent`, what `applyEvent` reads of it. A sequence number, a JavaScript number in the
-- source, is a natural number here.
pub record ExecutionStateEvent : Type 0 where
  pub execution_id : ℕ
  pub new_state : ExecutionStatus
  pub sequence : ℕ
  pub filled_quantity : Option Text
  pub average_price : Option Text
  pub reconciliation_outcome : Option ReconciliationOutcome

pub record ExecutionStateData : Type 0 where
  pub execution_id : ℕ
  pub status : ExecutionStatus
  pub requested_quantity : Text
  pub filled_quantity : Text
  pub remaining_quantity : Text
  pub last_sequence : ℕ

-- `ProviderError` with the code INVALID_REQUEST, one constructor for each message.
pub data StateError : Type 0 where
  wrong_execution stale_sequence conflicting_fill conflicting_state invalid_transition : StateError
  invalid_fill fill_decreased overfill invalid_price : StateError
  must_reconcile outcome_required outcome_unknown : StateError

-- JavaScript's double-precision numbers, as far as `applyEvent` computes with them.
pub record Numbers : Type 1 where
  pub Number : Type 0
  -- `Number(s)`
  pub number_of : Text → Number
  pub is_nan : Number → Bool
  pub zero_number : Number
  -- `a < b`, false on NaN
  pub less : Number → Number → Bool
  -- `a !== b`, true on NaN
  pub differs : Number → Number → Bool
  pub minus : Number → Number → Number
  -- `Math.max`
  pub maximum : Number → Number → Number
  -- `x.toFixed(8)`
  pub to_fixed : Number → Text

module _ (N : Numbers) where
  differs_from : Option Text → Text → Bool
  differs_from none t = false
  differs_from (some s) t = N.differs (N.number_of s) (N.number_of t)

  -- The event carries the sequence number that was applied last.
  unfoldable pub duplicate :
      ExecutionStateData → ExecutionStateEvent → Result StateError ExecutionStateData
  unfolding differs_from
  duplicate d e =
      if status_eq d.status e.new_state
      then (if differs_from e.filled_quantity d.filled_quantity then err conflicting_fill else ok d)
      else err conflicting_state

  -- The new filled quantity, for the one so far and the one requested.
  unfoldable pub next_fill : Option Text → N.Number → N.Number → Result StateError N.Number
  next_fill none current requested = ok current
  next_fill (some s) current requested =
      let q = N.number_of s in
      if N.is_nan q || N.less q N.zero_number
      then err invalid_fill
      else (if N.less q current
          then err fill_decreased
          else (if N.less requested q then err overfill else ok q))

  unfoldable pub check_price : Option Text → Result StateError (Unit {0})
  check_price none = ok tt
  check_price (some s) =
      let p = N.number_of s in
      if N.is_nan p || N.less p N.zero_number then err invalid_price else ok tt

  has_outcome : Option ReconciliationOutcome → Bool
  has_outcome none = false
  has_outcome (some _) = true

  is_still_unknown : Option ReconciliationOutcome → Bool
  is_still_unknown (some still_unknown) = true
  is_still_unknown _ = false

  unfoldable pub check_reconciliation :
      ExecutionStateData → ExecutionStateEvent → Result StateError (Unit {0})
  unfolding has_outcome is_still_unknown
  check_reconciliation d e =
      let onward = not (status_eq e.new_state reconciling) in
      if status_eq d.status unknown && onward
      then err must_reconcile
      else (if status_eq d.status reconciling
            && not (has_outcome e.reconciliation_outcome)
            && onward
          then err outcome_required
          else (if status_eq d.status reconciling
                && is_still_unknown e.reconciliation_outcome
                && onward
              then err outcome_unknown
              else ok tt))

  -- An event with a later sequence number.
  unfoldable pub advance :
      ExecutionStateData → ExecutionStateEvent → Result StateError ExecutionStateData
  unfolding next_fill check_price check_reconciliation
  advance d e = do
    let requested = N.number_of d.requested_quantity
    fill ← next_fill e.filled_quantity (N.number_of d.filled_quantity) requested
    priced ← check_price e.average_price
    reconciled ← check_reconciliation d e
    ok (record d {
      status = e.new_state;
      filled_quantity = N.to_fixed fill;
      remaining_quantity = N.to_fixed (N.maximum N.zero_number (N.minus requested fill));
      last_sequence = e.sequence;
    })

  -- `applyEvent`
  unfoldable pub apply_event :
      ExecutionStateData → ExecutionStateEvent → Result StateError ExecutionStateData
  unfolding duplicate advance
  apply_event d e =
      if not (e.execution_id == d.execution_id)
      then err wrong_execution
      else (if ltb e.sequence d.last_sequence
          then err stale_sequence
          else (if e.sequence == d.last_sequence
              then duplicate d e
              else (if is_valid_transition d.status e.new_state
                  then advance d e
                  else err invalid_transition)))
