-- ===== src/Ledger/Laws.antt =====
-- What `postTransaction` does to the ledger.
pub mod Maps
pub mod Effect
pub mod Balances
pub mod Enforcement
pub mod Conservation
pub mod Rejection
pub mod Failure
pub mod Replay
pub mod Reconciliation
pub mod Movements
pub mod Cover
