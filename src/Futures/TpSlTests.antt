-- ===== src/Futures/TpSlTests.antt =====
-- Take-profit and stop-loss at a concrete position.
use novacex.Prelude.{ℕ, ◌*◌, ◌≡◌, refl, true, false, none, some, List, [], ◌∷◌}
use novacex.Prelude.Int.{ℤ, pos}
use novacex.Prelude.Result.{err, ok}
use novacex.Decimal.{to_big_int, trim, is_space, is_decimal, scaled_magnitude}
use novacex.Decimal.Ops.{codes}
use novacex.Futures.{long, isolated, open_position, Position}
use novacex.Futures.Evaluation.{find_position}
use novacex.Futures.TpSl.{
  TpSlConfig, TpSlStore, SetTpSl, account_ownership_denied, find_owner, config_of_position,
  update_config, owned_position, set_config, take_profit, stop_loss, trigger_of, claim_config,
  place_failed, PlaceOrder, failed, ExecutionResult, close_position, execute_trigger,
  sweep_candidates, check_trigger, sweep, check_all_active_triggers,
}
use novacex.Futures.Laws.Triggers.{execute_trigger_once}

abbrev units : ℕ → ℤ
units n = pos (n * 1000000000000000000)

abbrev held : Position
held = record {
  id = 1;
  account = 5;
  symbol = 9;
  side = long;
  quantity = units 3;
  entry_price = units 100;
  mark_price = units 100;
  liquidation_price = units 91;
  leverage = 10;
  margin_mode = isolated;
  initial_margin = units 30;
  maintenance_margin = units 3;
  realized_pnl = pos 0;
  status = open_position;
  collateral_asset = 11;
  maintenance_margin_rate = pos 10000000000000000;
}

abbrev dto : SetTpSl
dto = record {
  user = 7;
  position = 1;
  take_profit_enabled = true;
  take_profit_price = some (codes "120");
  stop_loss_enabled = true;
  stop_loss_price = some (codes "95");
}

abbrev config : TpSlConfig
config = record {
  id = 30;
  position = 1;
  account = 5;
  symbol = 9;
  position_side = long;
  take_profit_enabled = true;
  take_profit_price = some (units 120);
  stop_loss_enabled = true;
  stop_loss_price = some (units 95);
}

abbrev store : TpSlStore
store = record {
  configs = [];
  positions = held ∷ [];
  accounts = record { account = 5; user = 7 } ∷ [];
}

abbrev armed : TpSlStore
armed = record store { configs = config ∷ [] }

-- The placement answers that trading is halted_trading.
abbrev halted_trading : PlaceOrder
halted_trading order rows = (err (place_failed 503), rows)

-- What a run opens.
run : PlaceOrder → TpSlStore → List ExecutionResult × TpSlStore
unfolding check_all_active_triggers sweep sweep_candidates check_trigger execute_trigger
    close_position claim_config trigger_of set_config owned_position find_owner config_of_position
    update_config find_position to_big_int trim is_space is_decimal scaled_magnitude
run place x = check_all_active_triggers place (λ symbol. none) (λ symbol. some (units 94)) x

config_stored : set_config 30 dto store ≡ ok (config, armed)
unfolding run
config_stored = refl

other_user_refused :
    set_config 30 (record dto { user = 8 }) store ≡ err (account_ownership_denied 5)
unfolding run
other_user_refused = refl

-- A stop-loss whose order fails is disarmed all the same.
failed_stop_loss :
    check_all_active_triggers halted_trading (λ symbol. none) (λ symbol. some (units 94)) armed ≡ (
      record {
        config = 30;
        position = 1;
        trigger_type = stop_loss;
        trigger_price = units 95;
        observed_mark_price = units 94;
        outcome = failed 503;
      }
          ∷ [],
      record armed {
        configs = record config { take_profit_enabled = false; stop_loss_enabled = false } ∷ [];
      },
    )
unfolding run
failed_stop_loss = refl

execute_trigger_once_example :
    let y = (execute_trigger halted_trading config stop_loss (units 95) (units 94) armed).1 in
    execute_trigger halted_trading config take_profit (units 120) (units 121) y ≡ (none, y)
execute_trigger_once_example =
    execute_trigger_once halted_trading halted_trading config config stop_loss take_profit
      (units 95) (units 120) (units 94) (units 121) armed refl
