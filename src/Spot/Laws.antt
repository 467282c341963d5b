-- ===== src/Spot/Laws.antt =====
-- Theorems on the spot market.
pub mod Order
pub mod Fills
pub mod Loop
pub mod Priority
pub mod NoPrice
pub mod Settlement
pub mod FlowParts
pub mod Flows
pub mod Progress
pub mod Cancel
pub mod Opening
