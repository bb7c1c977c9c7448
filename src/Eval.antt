-- ===== src/Eval.antt =====
-- internal/eval: sets of claim values and sets of tokens.
pub mod Glob
pub mod StringSet
pub mod Shape
pub mod Claims
pub mod Admitted
