-- ===== src/Domain.antt =====
-- packages/domain: the pure rules of background jobs.
pub mod Lifecycle
pub mod Number
pub mod Retry
pub mod Upload
pub mod Dashboard
