-- ===== src/Api.antt =====
-- internal/api/server.go.
pub mod Http
pub mod Payloads
pub mod Operations
pub mod Recovery
pub mod Server
pub mod Refusals
pub mod Checks
pub mod Sizes
pub mod Grants
pub mod Tests
pub mod Calls
pub mod Asked
pub mod Follows
