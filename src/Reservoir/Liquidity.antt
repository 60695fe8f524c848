-- ===== src/Reservoir/Liquidity.antt =====
-- The operations on the liquidity of taps: opening a tap with borrowed liquidity, adding funds,
-- borrowing more, syncing with the chain, the balances of a tap, and disputes.
pub mod Snapshots
pub mod Opening
pub mod Funding
pub mod Borrowing
pub mod Syncing
pub mod Disputes
pub mod Refreshed
pub mod Funded
pub mod Synced
pub mod Opened
pub mod Disputed
mod Tests
