-- ===== src/Tasks.antt =====
-- The task core: nexus/core/constants.py and nexus/tasks/.
pub mod State
pub mod Env
pub mod Metadata
pub mod Node
pub mod Lifecycle
pub mod Lease
pub mod Resume
pub mod Samples
mod Tests
