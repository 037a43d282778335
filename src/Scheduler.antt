-- ===== src/Scheduler.antt =====
-- The thread scheduler of the simulation tests, crates/vf-dst/src/scheduler.rs.
pub mod Core
pub mod Safety
pub mod Tests
