-- ===== src/Raft.antt =====
-- The Raft node that the evolution of a consensus starts from,
-- tools/vf-evolve/tasks/raft_consensus/initial.rs, and a cluster of such nodes.
pub mod State
pub mod Sending
pub mod Handlers
pub mod Cluster
pub mod Ballots
pub mod Votes
pub mod Frames
pub mod Moves
pub mod Elections
pub mod Logs
pub mod Follow
pub mod Steps
pub mod Commits
pub mod Histories
pub mod Reigns
pub mod Replication
pub mod Matching
pub mod Crownings
pub mod Chronicles
pub mod LogMatching
pub mod Tests
