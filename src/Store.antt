-- ===== src/Store.antt =====
-- The serializable key-value store of the examples, crates/vf-examples/src/ssi.rs.
pub mod State
pub mod Queries
pub mod Calls
pub mod Invariant
pub mod Frames
pub mod Preservation
pub mod Endings
pub mod Safety
pub mod Outcomes
pub mod Exclusion
pub mod Tests
