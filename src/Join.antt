-- ===== src/Join.antt =====
-- internal/join: linking evidence to grants.
pub mod Walk
pub mod Witness
