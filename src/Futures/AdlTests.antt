-- ===== src/Futures/AdlTests.antt =====
-- The theorems on auto-deleveraging at a concrete event.
use novacex.Prelude.{ℕ, ◌+◌, ◌*◌, ◌≡◌, refl, Option, none, some, [], ◌∷◌, arith}
use novacex.Prelude.Int.{ℤ, pos, negsuc, ◌+ℤ◌, ◌-ℤ◌, ◌*ℤ◌, ◌/ℤ◌}
use novacex.Prelude.Result.{Result, err, ok}
use novacex.Decimal.{Text, to_big_int, from_big_int, trim, is_space, is_decimal, scaled_magnitude}
use novacex.Decimal.Value.{mul_dec, div_dec}
use novacex.Decimal.Ops.{validate_amount}
use novacex.Ledger.{is_external_boundary, TxType-discrete}
use novacex.Ledger.Wallets.{
  put_wallet, update_row, wallet_keys, sort_keys, lock_wallets, apply_entry, check_entry,
}
use novacex.Ledger.Totals.{per_asset_totals, check_totals}
use novacex.Ledger.Post.{
  read_entry, read_entries, enforce_balance, prepare_entries, prepare, find_transaction, entries_of,
  validate_entries, apply_entries, update_wallets, execute_logic, post_transaction,
}
use novacex.Ledger.Laws.Enforcement.{debits, credits, net_key}
use novacex.Futures.{long, short, isolated, open_position, Position, FuturesError}
use novacex.Futures.Risk.{
  calculate_notional, calculate_maintenance_margin, calculate_unrealized_pnl,
  calculate_realized_pnl,
}
use novacex.Futures.Waterfall.{insurance_fund, adl_suspense}
use novacex.Futures.Evaluation.{
  Liquidation, pending, AdlEvent, FuturesStore, find_position, update_position, available_in,
}
use novacex.Futures.Adl.{
  AdlSurroundings, find_event, update_event, find_liquidation, insert_ranked, ranked_candidates,
  Extraction, full_extraction, extraction, deleveraging_entries, post_deleveraging, deleverage_one,
  deleverage_all, mark_event, recover_from, recover_deficit, process_adl_event,
}
use novacex.Futures.Laws.Deleveraging.{or_nothing, deleveraging_entries_move}
use novacex.Futures.Laws.Resolution.{Leaves, process_adl_event-Resolution}

abbrev units : ℕ → ℤ
units n = pos (n * 1000000000000000000)

-- 2 short at 100 with a margin of 20.
abbrev winner : Position
winner = record {
  id = 4;
  account = 5;
  symbol = 9;
  side = short;
  quantity = units 2;
  entry_price = units 100;
  mark_price = units 100;
  liquidation_price = units 109;
  leverage = 10;
  margin_mode = isolated;
  initial_margin = units 20;
  maintenance_margin = units 1;
  realized_pnl = pos 0;
  status = open_position;
  collateral_asset = 11;
  maintenance_margin_rate = pos 5000000000000000;
}

-- One that was opened at 88, below the bankruptcy price.
abbrev late : Position
late = record winner { id = 6; account = 8; entry_price = units 88 }

abbrev bankrupt : Liquidation
bankrupt = record {
  id = 70;
  position = 1;
  account = 3;
  symbol = 9;
  side = long;
  quantity = units 3;
  bankruptcy_price = units 90;
  liquidation_price = units 91;
  loss_amount = units 30;
  insurance_fund_delta = pos 0;
}

abbrev event : AdlEvent
event = record {
  id = 72;
  liquidation = 70;
  counterparty_account = none;
  counterparty_position = none;
  symbol = 9;
  side = long;
  reduced_quantity = none;
  execution_price = none;
  status = pending;
  target_deficit = units 6;
  resolved_deficit = pos 0;
}

abbrev store : FuturesStore
store = record {
  db = record {
    wallets =
        record { account = 5; asset = 11; available = units 1; locked = units 20 }
        ∷ record { account = 8; asset = 11; available = units 1; locked = units 20 }
        ∷ record { account = insurance_fund; asset = 11; available = units 40; locked = pos 0 }
        ∷ record {
          account = adl_suspense;
          asset = 11;
          available = negsuc 5999999999999999999;
          locked = pos 0;
        }
        ∷ [];
    transactions = [];
    entries = [];
  };
  positions = late ∷ winner ∷ [];
  liquidations = bankrupt ∷ [];
  adl_events = event ∷ [];
}

abbrev surroundings : AdlSurroundings
surroundings = record {
  mark_prices = λ symbol. some (units 86);
  close_prices = λ symbol. some (units 85);
  trading_pairs = λ symbol. none;
  updated_at = λ id. 12;
  transaction_ids = λ id. 100 + id;
  settlement_text = λ symbol side quantity price. symbol;
}

-- What a run opens.
run : Option Text → Result FuturesError FuturesStore
unfolding process_adl_event recover_deficit recover_from deleverage_all deleverage_one extraction
    post_deleveraging deleveraging_entries mark_event update_event find_event find_liquidation
    insert_ranked ranked_candidates find_position update_position calculate_notional
    calculate_maintenance_margin calculate_unrealized_pnl calculate_realized_pnl mul_dec div_dec
    ◌*ℤ◌ ◌/ℤ◌ ◌+ℤ◌ ◌-ℤ◌ from_big_int post_transaction execute_logic prepare prepare_entries
    read_entries read_entry enforce_balance is_external_boundary per_asset_totals check_totals
    validate_amount to_big_int trim is_space is_decimal scaled_magnitude find_transaction
    lock_wallets sort_keys wallet_keys validate_entries apply_entries put_wallet check_entry
    apply_entry update_wallets update_row entries_of TxType-discrete
run override = process_adl_event surroundings 72 override store

abbrev result_of : Result FuturesError FuturesStore → FuturesStore
result_of (ok x) = x
result_of (err e) = store

abbrev after : FuturesStore
after = result_of (process_adl_event surroundings 72 none store)

processed : process_adl_event surroundings 72 none store ≡ ok after
unfolding run
processed = refl

-- The better return comes first: 1.2 of its 2 are closed, and the suspense account is whole again.
winner_reduced : available_in adl_suspense 11 after.db.wallets ≡ pos 0
unfolding run
winner_reduced = refl

-- The later position would lose 4 at the bankruptcy price, and keeps its whole margin.
late_keeps_its_margin :
    available_in 8 11
      (result_of (
        process_adl_event surroundings 72 none (record store {
          positions = late ∷ [];
          adl_events = record event { target_deficit = units 20 } ∷ [];
        }))).db.wallets
    ≡ units 21
unfolding run
late_keeps_its_margin = refl

event_found : find_event 72 store.adl_events ≡ some event
unfolding run
event_found = refl

process_adl_event-Resolution_example : Leaves 72 event after
process_adl_event-Resolution_example =
    process_adl_event-Resolution surroundings 72 none store after event event_found refl processed

abbrev late_close : Extraction
late_close = full_extraction late (units 85) (units 90)

-- 6 are denied to it, which do not cover the 20 that are missing.
late_closed : extraction late (units 85) (units 90) (pos 1, pos 1) (units 20) ≡ ok late_close
unfolding run
late_closed = refl

deleveraging_entries_move_example :
    (net_key (8, 11) (deleveraging_entries late (units 20) late_close)
      ≡ or_nothing (calculate_realized_pnl short (units 2) (units 88) (units 90)))
    × (net_key (adl_suspense, 11) (deleveraging_entries late (units 20) late_close)
        ≡ or_nothing (
            calculate_realized_pnl short (units 2) (units 88) (units 85)
            -ℤ calculate_realized_pnl short (units 2) (units 88) (units 90)))
    × (debits 11 (deleveraging_entries late (units 20) late_close)
        ≡ credits 11 (deleveraging_entries late (units 20) late_close))
deleveraging_entries_move_example =
    deleveraging_entries_move 11 late (units 85) (units 90) (pos 1) (pos 1) (units 20) (units 20)
      late_close late_closed (omega arith) (omega arith)
