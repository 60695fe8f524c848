-- ===== src/Settings.antt =====
-- packages/server/src/settings.ts: the settings that the administrator changes while the server runs.
pub mod Table
pub mod Update
pub mod Stored
pub mod Updated
pub mod Tests
