-- ===== src/Futures/Funding.antt =====
-- `FuturesFundingService` (funding.service.ts) and `FuturesFeeService` (fee.service.ts): the funding
-- rate, and its settlement with every open position of a symbol, once in eight hours.
pub mod Rate
pub mod Payments
pub mod Interval
pub use novacex.Futures.Funding.Rate.{
  execution_fee_rate, interest_rate, funding_cap, funding_floor, FundingRate, rate_at,
  signed_funding,
}
pub use novacex.Futures.Funding.Payments.{
  FundingHistory, FundingStore, FundingSurroundings, funding_reference, release_of, release_text,
  Payment,
}
pub use novacex.Futures.Funding.Interval.{
  Attempt, and_then, in_ledger, margin_columns, caught, applied_rate, history_row,
}
unfoldable pub use novacex.Futures.Funding.Rate.{
  calculate_execution_fee, clamp_rate, calculate_adaptive_funding_rate, calculate_estimated_funding,
}
unfoldable pub use novacex.Futures.Funding.Payments.{
  is_settled_epoch, open_positions, payments_of, margin_release, funded_amount,
}
unfoldable pub use novacex.Futures.Funding.Interval.{
  release_margin, fund_payment, funding_entries, post_funding, try_payment, settle_payments,
  settle_positions, settle_funding_interval,
}
