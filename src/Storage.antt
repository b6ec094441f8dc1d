-- ===== src/Storage.antt =====
-- Deposits that peers hold for one another: the passes of nexus/scheduler/dag.py over the deposit
-- table, and the cache of session keys.
pub mod Keys
pub mod Deposit
pub mod Host
pub mod Depositor
pub mod Passes
pub mod Handlers
pub mod Timeline
pub mod Retries
pub mod Eviction
pub mod Samples
mod Tests
