-- ===== src/Jobs/Steps.antt =====
-- What one write does to a row of background_jobs: the compare-and-swap discipline of the version
-- column and the state machine of packages/domain/src/job-lifecycle.ts. An enqueued job is a row
-- of its own and no step of another.
pub mod Rows
pub mod Agreement
pub mod Execution
pub mod Operators
pub mod Reconciliation
pub mod Delivery
