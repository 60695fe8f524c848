-- ===== src/Auth.antt =====
-- packages/server/src/auth.ts: who a request comes from.
pub mod Outside
pub mod Sessions
pub mod Headers
pub mod Tokens
pub mod Verified
pub mod Address
pub mod Digits
mod Tests
