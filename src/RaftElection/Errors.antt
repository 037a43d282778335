-- ===== src/RaftElection/Errors.antt =====
-- When `run_election` of tools/vf-evolve/tasks/raft_election/initial.rs fails.
use verified_concurrent.Base.{ℕ, Bool, is_some}
use verified_concurrent.Base.Maps.{lookup}
use verified_concurrent.RaftElection.Cluster.{RaftElection}

abbrev is_known : RaftElection → ℕ → Bool
is_known e id = is_some (lookup id e.servers)
