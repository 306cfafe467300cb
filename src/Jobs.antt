-- ===== src/Jobs.antt =====
-- packages/db: background jobs in the database.
pub mod Store
pub mod Claim
pub mod Lease
pub mod Recovery
pub mod Commit
pub mod Handler
pub mod Constraints
pub mod Operations
pub mod Reconciliation
pub mod Enqueue
pub mod Dispatch
pub mod Steps
pub mod History
pub mod Sweep
pub mod Envelope
pub mod Guard
pub mod CommittedResult
