-- ===== src/Trust.antt =====
-- internal/trust: the provider-neutral grant and the names it is keyed by.
pub mod Issuer
pub mod Canonical
pub mod Grant
pub mod Projection
