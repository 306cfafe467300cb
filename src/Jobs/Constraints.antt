-- ===== src/Jobs/Constraints.antt =====
-- The CHECK constraints of the job tables, and that the operations keep them.
pub mod Checks
pub mod Rows
pub mod Execution
pub mod Settlement
pub mod Operators
pub mod Retry
pub mod Reconciliation
pub mod Delivery
