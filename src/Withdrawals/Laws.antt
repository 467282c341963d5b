-- ===== src/Withdrawals/Laws.antt =====
-- Theorems on withdrawals.
pub mod Rows
pub mod Posts
pub mod Closing
pub mod Changes
pub mod Lookups
pub mod Ends
pub mod Requests
pub mod Steps
pub mod Locked
pub mod Sound
pub mod Reuse
