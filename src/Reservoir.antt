-- ===== src/Reservoir.antt =====
-- packages/server/src/reservoir.ts: `ReservoirService`.
pub mod Tables
pub mod Proof
pub mod Payments
pub mod Cancel
pub mod Verify
pub mod Accept
pub mod Outgoing
pub mod Refund
pub mod Complete
pub mod Liquidity
pub mod Tests
