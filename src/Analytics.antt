-- ===== src/Analytics.antt =====
-- The analytics packages/domain/src/analytics-*.ts: which observations are compared, and how.
pub mod Ages
pub mod Windows
pub mod Snapshots
pub mod Metrics
pub mod Spread
pub mod Statistics
pub mod Quantities
