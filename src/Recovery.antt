-- ===== src/Recovery.antt =====
-- internal/recovery.
pub mod Verify
pub mod Coordinator
mod Tests
