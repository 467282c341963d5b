-- ===== src/Futures/Laws.antt =====
-- Theorems on futures positions.
pub mod Liquidation
pub mod Reduction
pub mod Equity
pub mod Accounts
pub mod Waterfall
pub mod Settlement
pub mod Outcome
pub mod Evaluated
pub mod Once
pub mod Deleveraging
pub mod Recovering
pub mod Resolution
pub mod Funding
pub mod Triggers
pub mod Stored
pub mod Moves
