-- ===== src/RaftElection.antt =====
-- The leader election that the evolution of an election starts from,
-- tools/vf-evolve/tasks/raft_election/initial.rs.
pub mod Server
pub mod Cluster
pub mod Net
pub mod Servers
pub mod Soundness
pub mod Safety
pub mod Progress
pub mod Errors
pub mod Tests
