-- ===== src/Ring.antt =====
-- internal/ring: where a grant lands.
pub mod Owner
pub mod Facts
pub mod Place
pub mod Declare
pub mod Subject
pub mod Reading
pub mod Classify
pub mod Pins
pub mod Landing
pub mod Outermost
