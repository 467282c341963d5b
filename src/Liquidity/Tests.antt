-- ===== src/Liquidity/Tests.antt =====
-- The theorems on executions at a concrete one. Whole numbers stand in for JavaScript's.
use novacex.Prelude.{
  ℕ, ◌≢◌, ◌↔◌, ◌-◌, ◌≡◌, refl, ◌⊎◌, true, false, not, none, some, [], ◌∷◌, ltb, ◌==◌, max,
}
use novacex.Prelude.Result.{Result, err, ok}
use novacex.Decimal.{read_digits}
use novacex.Decimal.Ops.{codes}
use novacex.Liquidity.{acknowledged, partially_filled, filled, unknown, reconciling, confirmed}
use novacex.Liquidity.Machine.{
  is_terminal, is_valid_transition, validate_state_transition, ExecutionStateEvent,
  ExecutionStateData, Numbers, apply_event, StateError, next_fill, check_price,
  check_reconciliation, duplicate, advance,
}
use novacex.Liquidity.Laws.{
  IsStep, apply_event-IsStep, run_events, run_events-IsLater, IsLater, MayFollow,
  is_valid_transition-validate_state_transition,
}

abbrev whole_numbers : Numbers
whole_numbers = record {
  Number = ℕ;
  number_of = λ s. read_digits 0 s;
  is_nan = λ x. false;
  zero_number = 0;
  less = ltb;
  differs = λ x y. not (x == y);
  minus = λ x y. x - y;
  maximum = max;
  to_fixed = λ x. codes "5";
}

abbrev execution : ExecutionStateData
execution = record {
  execution_id = 1;
  status = acknowledged;
  requested_quantity = codes "9";
  filled_quantity = codes "0";
  remaining_quantity = codes "9";
  last_sequence = 3;
}

abbrev fill_five : ExecutionStateEvent
fill_five = record {
  execution_id = 1;
  new_state = partially_filled;
  sequence = 4;
  filled_quantity = some (codes "5");
  average_price = none;
  reconciliation_outcome = none;
}

abbrev or_before : Result StateError ExecutionStateData → ExecutionStateData
or_before (ok d) = d
or_before (err e) = execution

run_event : ExecutionStateData → ExecutionStateEvent → Result StateError ExecutionStateData
unfolding apply_event duplicate advance next_fill check_price check_reconciliation
    is_valid_transition run_events read_digits
run_event = apply_event whole_numbers

abbrev after_five : ExecutionStateData
after_five = or_before (apply_event whole_numbers execution fill_five)

filled_five : apply_event whole_numbers execution fill_five ≡ ok after_five
unfolding run_event
filled_five = refl

apply_event-IsStep_example : IsStep execution after_five
apply_event-IsStep_example =
    apply_event-IsStep whole_numbers execution fill_five after_five filled_five

abbrev done : ExecutionStateData
done = record execution { status = filled; filled_quantity = codes "9" }

abbrev confirming : ExecutionStateEvent
confirming = record fill_five { new_state = confirmed; filled_quantity = none }

abbrev after_confirming : ExecutionStateData
after_confirming = or_before (apply_event whole_numbers done confirming)

confirmed_run : run_events whole_numbers done (confirming ∷ []) ≡ ok after_confirming
unfolding run_event
confirmed_run = refl

run_events-IsLater_example : IsLater done after_confirming
run_events-IsLater_example =
    run_events-IsLater whole_numbers done (confirming ∷ []) after_confirming confirmed_run

is_valid_transition-validate_state_transition_example :
    ((validate_state_transition unknown reconciling ≡ true) ↔ MayFollow unknown reconciling)
    × (((is_valid_transition unknown reconciling ≡ true)
          × (validate_state_transition unknown reconciling ≡ false))
        ↔ (((is_terminal unknown ≡ true) × (unknown ≢ confirmed) × (reconciling ≡ confirmed))
            ⊎ ((unknown ≡ reconciling)
                × ((reconciling ≡ reconciling)
                    ⊎ (reconciling ≡ acknowledged)
                    ⊎ (reconciling ≡ unknown)))))
is_valid_transition-validate_state_transition_example =
    is_valid_transition-validate_state_transition unknown reconciling
