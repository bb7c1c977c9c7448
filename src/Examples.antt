-- ===== src/Examples.antt =====
-- Runs of the model on concrete inputs, and each theorem at an input that meets its hypotheses.
mod Sets
mod Tokens
mod Grants
mod Rings
mod Declarations
mod Witnesses
mod Conditions
mod Blocks
