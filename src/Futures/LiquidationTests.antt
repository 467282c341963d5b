-- ===== src/Futures/LiquidationTests.antt =====
-- The theorems on liquidations at concrete positions.
use novacex.Prelude.{ℕ, ◌*◌, ◌≡◌, refl, inl, inr, true, none, some, List, [], ◌∷◌, All, arith}
use novacex.Prelude.Int.{ℤ, pos, ◌+ℤ◌, ◌-ℤ◌, ◌*ℤ◌, ◌/ℤ◌}
use novacex.Prelude.Result.{Result, err, ok}
use novacex.Decimal.{to_big_int, from_big_int, trim, is_space, is_decimal, scaled_magnitude}
use novacex.Decimal.Value.{mul_dec, div_dec}
use novacex.Decimal.Ops.{codes, validate_amount}
use novacex.Ledger.{is_external_boundary, TxType-discrete, unbalanced_transaction}
use novacex.Ledger.Wallets.{
  put_wallet, update_row, wallet_keys, sort_keys, lock_wallets, apply_entry, check_entry,
}
use novacex.Ledger.Totals.{per_asset_totals, check_totals}
use novacex.Ledger.Post.{
  read_entry, read_entries, enforce_balance, prepare_entries, prepare, find_transaction, entries_of,
  validate_entries, apply_entries, update_wallets, execute_logic, post_transaction,
}
use novacex.Ledger.Laws.Enforcement.{debits, credits}
use novacex.Futures.{
  long, isolated, open_position, closed, liquidated, Position, FuturesError, ledger_error,
  position_already_liquidated, liquidation_not_authorized, invalid_mark_price,
}
use novacex.Futures.Risk.{
  calculate_notional, calculate_maintenance_margin, calculate_unrealized_pnl,
  calculate_liquidation_price, calculate_position_equity, check_liquidation,
}
use novacex.Futures.Waterfall.{
  insurance_fund, adl_suspense, Progress, start_progress, remaining_equity, proposed_step,
  settle_step, liquidation_step, liquidation_loop, liquidation_entries,
}
use novacex.Futures.Evaluation.{
  FuturesStore, Surroundings, Evaluation, find_position, update_position, validate_mark_price,
  fetch_mark_price, lock_position, post_liquidation, liquidate_at, check_eligible,
  evaluate_and_liquidate, is_authorized, available_in, evaluation_of, liquidation_row,
}
use novacex.Futures.Laws.Accounts.{Accounts}
use novacex.Futures.Laws.Waterfall.{IsSettled, liquidation_loop-IsSettled}
use novacex.Futures.Laws.Settlement.{fee_shortfall, liquidation_entries_excess}
use novacex.Futures.Laws.Evaluated.{IsFundedRow, IsCoveredWallet}
use novacex.Futures.Laws.Stored.{Left, evaluate_and_liquidate-Left}
use novacex.Futures.Laws.Once.{evaluate_and_liquidate_once}

abbrev units : ℕ → ℤ
units n = pos (n * 1000000000000000000)

-- 3 long at 100 with a margin of 30 and a maintenance margin of 3.
abbrev held : Position
held = record {
  id = 1;
  account = 5;
  symbol = 9;
  side = long;
  quantity = units 3;
  entry_price = units 100;
  mark_price = units 100;
  liquidation_price = units 91;
  leverage = 10;
  margin_mode = isolated;
  initial_margin = units 30;
  maintenance_margin = units 3;
  realized_pnl = pos 0;
  status = open_position;
  collateral_asset = 11;
  maintenance_margin_rate = pos 10000000000000000;
}

-- One that is liquidated with a gain, since its maintenance margin is above its margin.
abbrev winning : Position
winning = record held {
  id = 2;
  maintenance_margin = units 50;
  maintenance_margin_rate = pos 200000000000000000;
}

abbrev finished : Position
finished = record held { id = 3; quantity = pos 0; initial_margin = pos 0; status = closed }

abbrev store : FuturesStore
store = record {
  db = record {
    wallets =
        record { account = 5; asset = 11; available = units 20; locked = units 60 }
        ∷ record { account = insurance_fund; asset = 11; available = units 4; locked = pos 0 }
        ∷ record { account = adl_suspense; asset = 11; available = units 9; locked = pos 0 }
        ∷ [];
    transactions = [];
    entries = [];
  };
  positions = held ∷ winning ∷ finished ∷ [];
  liquidations = [];
  adl_events = [];
}

abbrev surroundings : Surroundings
surroundings = record {
  liquidation_id = 70;
  transaction_id = 71;
  adl_event_id = 72;
  mark_prices = λ symbol. some (codes "90.5");
  updated_at = λ id. 12;
  settlement_text = λ symbol side quantity mark. symbol;
}

abbrev start : Progress
start = start_progress held (pos 0)

-- What a run opens.
run : Surroundings → ℕ → List ℕ → Result FuturesError (Evaluation × FuturesStore)
unfolding evaluate_and_liquidate lock_position find_position update_position validate_mark_price
    fetch_mark_price post_liquidation liquidate_at check_eligible check_liquidation liquidation_loop
    liquidation_step settle_step proposed_step remaining_equity liquidation_entries
    calculate_notional calculate_maintenance_margin calculate_unrealized_pnl
    calculate_liquidation_price calculate_position_equity mul_dec div_dec ◌*ℤ◌ ◌/ℤ◌ ◌+ℤ◌ ◌-ℤ◌
    from_big_int post_transaction execute_logic prepare prepare_entries read_entries read_entry
    enforce_balance is_external_boundary per_asset_totals check_totals validate_amount to_big_int
    trim is_space is_decimal scaled_magnitude find_transaction lock_wallets sort_keys wallet_keys
    validate_entries apply_entries put_wallet check_entry apply_entry update_wallets update_row
    entries_of TxType-discrete
run u id price = evaluate_and_liquidate u id (some price) (some 5) store

abbrev result_of :
    Evaluation × FuturesStore
    → Result FuturesError (Evaluation × FuturesStore)
    → Evaluation × FuturesStore
result_of d (ok r) = r
result_of d (err e) = d

abbrev progress_of : Progress → Result FuturesError Progress → Progress
progress_of d (ok s) = s
progress_of d (err e) = d

abbrev nothing : Evaluation × FuturesStore
nothing = (evaluation_of held (pos 0) (liquidation_row 0 held (pos 0) start) start, store)

-- The position with a loss is liquidated at 90.5, which the caller's blank override leaves to the
-- provider.
abbrev liquidation : Evaluation × FuturesStore
liquidation =
    result_of nothing (evaluate_and_liquidate surroundings 1 (some (codes " ")) (some 5) store)

liquidation_run :
    evaluate_and_liquidate surroundings 1 (some (codes " ")) (some 5) store ≡ ok liquidation
unfolding run
liquidation_run = refl

liquidation_closed : liquidation.0.final_status ≡ liquidated
unfolding run
liquidation_closed = refl

-- A gain has no debit side: nobody can liquidate the position at 101.
winning_refused :
    evaluate_and_liquidate surroundings 2 (some (codes "101")) (some 5) store
    ≡ err (ledger_error (unbalanced_transaction (units 30) (units 33)))
unfolding run
winning_refused = refl

other_caller_refused :
    evaluate_and_liquidate surroundings 1 none (some 6) store ≡ err (liquidation_not_authorized 1)
unfolding run
other_caller_refused = refl

worthless_override_refused :
    evaluate_and_liquidate surroundings 1 (some (codes "0")) none store ≡ err (invalid_mark_price 1)
unfolding run
worthless_override_refused = refl

finished_refused :
    evaluate_and_liquidate surroundings 3 none none store ≡ err (position_already_liquidated 3)
unfolding run
finished_refused = refl

liquidation_loop-IsSettled_example :
    (s : Progress) × (liquidation_loop 4000000000000000000 held
        (pos 90500000000000000000)
        held.maintenance_margin_rate
        (start_progress held (units 20))
      ≡ ok s)
    × Accounts held (units 20) s
    × IsSettled held (pos 90500000000000000000) held.maintenance_margin_rate s
liquidation_loop-IsSettled_example =
    liquidation_loop-IsSettled held (pos 90500000000000000000) held.maintenance_margin_rate
      (units 20) 4000000000000000000 (omega arith) (omega arith) (omega arith) (omega arith)

-- A gain of 2 and a fee of 1, of which nothing was deducted.
abbrev gained : Progress
gained = record start {
  total_user_credit = units 2;
  total_fee = units 1;
  total_released_im = units 30;
}

liquidation_entries_excess_example :
    credits 11 (liquidation_entries held 11 (units 4) gained)
    ≡ debits 11 (liquidation_entries held 11 (units 4) gained)
      +ℤ (units 2 +ℤ fee_shortfall (pos 0) (units 1))
liquidation_entries_excess_example =
    liquidation_entries_excess held 11 (units 4) gained (omega arith) (omega arith) (omega arith)
      (omega arith)

store-IsFunded : All IsFundedRow store.positions
store-IsFunded = (inr (omega arith, omega arith), (inr (omega arith, omega arith), (inl refl, tt)))

store-IsCovered : All IsCoveredWallet store.db.wallets
store-IsCovered = (omega arith, (omega arith, (omega arith, tt)))

held_found : find_position 1 store.positions ≡ some held
unfolding run
held_found = refl

evaluate_and_liquidate-Left_example :
    (held.status ≡ open_position)
    × (is_authorized (some 5) held ≡ true)
    × (check_liquidation
          (record held { mark_price = liquidation.0.mark_price })
          (available_in 5 11 store.db.wallets)
        ≡ true)
    × Left held store liquidation.1 liquidation.0
unfolding run
evaluate_and_liquidate-Left_example =
    evaluate_and_liquidate-Left surroundings 1 (some (codes " ")) (some 5) store liquidation held
      store-IsFunded store-IsCovered held_found refl (omega arith) (omega arith) liquidation_run

evaluate_and_liquidate_once_example :
    evaluate_and_liquidate surroundings 1 none none liquidation.1
    ≡ err (position_already_liquidated 1)
evaluate_and_liquidate_once_example =
    evaluate_and_liquidate_once surroundings 1 (some (codes " ")) (some 5) store liquidation
      liquidation_run surroundings none none liquidation_closed
