-- ===== src/SsiModel.antt =====
-- The state machine of serializable snapshot isolation that the model checker explores,
-- crates/vf-stateright/src/ssi.rs.
pub mod State
pub mod Queries
pub mod Apply
pub mod Steps
pub mod Effects
pub mod Safety
pub mod History
pub mod Locks
pub mod Holders
pub mod Orphans
pub mod Enabled
pub mod Checks
mod Tests
