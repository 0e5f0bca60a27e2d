-- ===== src/Simulator.antt =====
-- internal/simulator: the email service that the workers send to.
pub mod Email
pub mod Status
pub mod Server
pub mod Handlers
mod Tests
