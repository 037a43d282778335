-- ===== src/Cascade.antt =====
-- The cascade of evaluators, crates/vf-evaluators/src/cascade.rs and result.rs.
pub mod Run
pub mod Verdicts
pub mod Tests
