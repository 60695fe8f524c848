-- ===== src/Clarity.antt =====
-- packages/server/src/sip018.ts: the bytes of Clarity values, the hash that is signed, and the
-- layouts of signatures.
pub mod Words
pub mod Values
pub mod Signatures
pub mod Bytes
pub mod Ordered
pub mod Signed
pub mod Transfers
mod Tests
