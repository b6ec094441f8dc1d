-- ===== src/Services.antt =====
-- Failover of long-running services: `service_health_pass` of nexus/scheduler/dag.py.
pub mod Health
pub mod Settled
mod Tests
