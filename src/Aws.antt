-- ===== src/Aws.antt =====
-- internal/parse/aws: what the reader of AWS policies knows of AWS's own names, and the conditions of
-- a statement.
pub mod Tenancy
pub mod Folding
pub mod Operator
pub mod Variables
pub mod Values
pub mod Rules
pub mod Json
pub mod Principal
pub mod Scope
pub mod Condition
