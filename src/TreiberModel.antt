-- ===== src/TreiberModel.antt =====
-- The model of the Treiber stack that the model checker explores,
-- crates/vf-stateright/src/treiber_stack.rs.
pub mod State
pub mod Actions
pub mod Chain
pub mod Invariant
pub mod Pushes
pub mod Pops
pub mod Guards
pub mod Moves
pub mod Safety
pub mod Tests
