-- ===== src/Futures/Adl.antt =====
-- `processAdlEvent` (adl.service.ts): what the insurance fund could not pay of a liquidation is
-- recovered from profitable positions of the other side.
pub mod Candidates
pub mod Close
pub mod Rounds
pub use novacex.Futures.Adl.Candidates.{
  AdlSurroundings, opposite_side, side_eq, return_on_equity, is_profitable, is_counterparty,
  ranks_before,
}
pub use novacex.Futures.Adl.Close.{
  lot_and_notional, Extraction, profit_at, denied_profit, full_extraction, whole_part, aligned,
  without_dust, partial_extraction, adl_reference, deleveraged_columns,
}
pub use novacex.Futures.Adl.Rounds.{
  Recovery, recovered, latest_close, read_override, provided_price, current_mark_price,
  status_after, event_columns, start_recovery, is_event_over,
}
unfoldable pub use novacex.Futures.Adl.Candidates.{
  find_event, update_event, find_liquidation, insert_ranked, ranked_candidates,
}
unfoldable pub use novacex.Futures.Adl.Close.{extraction, deleveraging_entries, post_deleveraging}
unfoldable pub use novacex.Futures.Adl.Rounds.{
  deleverage_one, deleverage_all, mark_event, recover_from, recover_deficit, process_adl_event,
}
