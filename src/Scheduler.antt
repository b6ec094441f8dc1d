-- ===== src/Scheduler.antt =====
-- The master's scheduler: nexus/scheduler/.
pub mod Reliability
pub mod Release
pub mod Images
pub mod Fitness
pub mod Selection
pub mod Samples
mod Tests
