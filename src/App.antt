-- ===== src/App.antt =====
-- packages/server/src/app.ts: the rate limit, who is let in, and the handlers of messages.
pub mod RateLimit
pub mod Windows
mod Tests
pub mod Context
pub mod Entry
pub mod Access
pub mod Sessions
mod EntryTests
pub mod Taps
pub mod Syncs
pub mod PaymentInfo
pub mod Webhook
pub mod Administration
pub mod Patched
pub mod Administered
mod AdminTests
mod TapTests
pub mod Send
pub mod Inbox
pub mod Replies
pub mod Claiming
