-- ===== src/Examples.antt =====
-- Runs of the program on concrete data, and an application of each result to them.
pub mod Data
pub mod Histories
pub mod Transactions
pub mod Policies
pub mod Requests
pub mod Gates
pub mod Sweeps
pub mod Envelopes
pub mod Observations
pub mod Conversations
pub mod Measurements
pub mod Associations
pub mod Credentials
pub mod Uploads
