-- ===== src/Futures/Evaluation.antt =====
-- `evaluateAndLiquidate` (liquidation.service.ts): the guards before a liquidation, the settlement
-- in one ledger transaction, and the rows that are written after it.
pub mod Tables
pub mod Guards
pub mod Closing
pub use novacex.Futures.Evaluation.Tables.{
  Liquidation, AdlStatus, pending, partially_settled, settled, unresolved, AdlEvent, FuturesStore,
  Surroundings, available_in,
}
pub use novacex.Futures.Evaluation.Guards.{is_blank_price, resolve_mark_price, is_authorized}
pub use novacex.Futures.Evaluation.Closing.{
  liquidation_input, liquidation_reference, settled_db, final_status, final_mm,
  final_liquidation_price, liquidated_columns, bankruptcy_price_of, liquidation_row, adl_event_rows,
  Evaluation, evaluation_of, loop_fuel,
}
unfoldable pub use novacex.Futures.Evaluation.Tables.{find_position, update_position}
unfoldable pub use novacex.Futures.Evaluation.Guards.{
  validate_mark_price, fetch_mark_price, lock_position,
}
unfoldable pub use novacex.Futures.Evaluation.Closing.{
  post_liquidation, liquidate_at, check_eligible, evaluate_and_liquidate,
}
