-- ===== src/TwoPhase.antt =====
-- Two-phase commit, tools/vf-evolve/tasks/two_phase_commit/initial.rs: a transaction manager and
-- resource managers in one table of transactions behind a mutex.
pub mod Txn
pub mod Table
pub mod Votes
pub mod Consistency
pub mod Atomicity
pub mod Phases
pub mod Progress
mod Tests
