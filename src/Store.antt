-- ===== src/Store.antt =====
-- packages/server/src/store.ts: `SqliteMessageStore`, its tables as lists of rows in the order of
-- insertion and each method as a function on them. `Date.now()` is an argument.
pub mod Rows
pub mod Methods
pub mod Events
pub mod Evolution
pub mod Finality
pub mod Claims
pub mod Invariant
pub mod Newest
pub mod Inbox
mod Tests
