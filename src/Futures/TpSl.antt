-- ===== src/Futures/TpSl.antt =====
-- `FuturesTpSlService` (tpsl.service.ts): take-profit and stop-loss prices of a position, the sweep
-- that compares them with mark prices, and the claim of a trigger.
pub mod Config
pub mod Sweep
pub use novacex.Futures.TpSl.Config.{
  TpSlConfig, Owner, TpSlStore, TpSlError, position_not_found, account_ownership_denied,
  invalid_price, SetTpSl, read_price, configured, price_columns, stored_config,
}
pub use novacex.Futures.TpSl.Sweep.{
  TriggerType, take_profit, stop_loss, reaches_take_profit, reaches_stop_loss, is_reached, is_armed,
  CloseOrder, PlaceError, no_position_to_close, place_failed, PlaceOrder, TriggerOutcome, executed,
  skipped, failed, ExecutionResult, placed_outcome, close_order, closable, is_candidate,
  sweep_price, with_result,
}
unfoldable pub use novacex.Futures.TpSl.Config.{
  find_owner, config_of_position, update_config, owned_position, set_config,
}
unfoldable pub use novacex.Futures.TpSl.Sweep.{
  trigger_of, claim_config, close_position, execute_trigger, sweep_candidates, check_trigger, sweep,
  check_all_active_triggers,
}
