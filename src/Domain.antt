-- ===== src/Domain.antt =====
-- internal/domain: the vocabulary of the program.
pub mod State
pub mod Types
pub mod Fingerprint
