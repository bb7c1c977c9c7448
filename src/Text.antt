-- ===== src/Text.antt =====
-- Go strings: bytes, UTF-8, splitting and quoting.
pub mod Bytes
pub mod Utf8
pub mod Quote
pub mod Split
pub mod Parts
pub mod Decimal
