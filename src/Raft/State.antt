-- ===== src/Raft/State.antt =====
-- tools/vf-evolve/tasks/raft_consensus/initial.rs: messages and the state of a node. Identifiers,
-- terms and indices (u64) are numbers; the entries of a log stand from the oldest on.
use verified_concurrent.Base.{ℕ, ◌+◌, ◌/◌, ◌%◌, Bool, Option, none, List, []}
use verified_concurrent.Base.Maps.{Map}

-- `enum NodeState`
pub data NodeState : Type 0 where
  follower : NodeState
  candidate : NodeState
  leader : NodeState

-- `enum RaftError`
pub data RaftError : Type 0 where
  not_leader : RaftError
  not_candidate : RaftError
  stale_term : RaftError
  node_not_found : RaftError
  log_inconsistency : RaftError

-- `struct LogEntry`
pub record LogEntry : Type 0 where
  pub index : ℕ
  pub term : ℕ
  pub payload : List ℕ

-- `enum Message`, a record for the fields of each of its variants.
pub record RequestVote : Type 0 where
  pub term : ℕ
  pub candidate_id : ℕ
  pub last_log_index : ℕ
  pub last_log_term : ℕ

pub record VoteResponse : Type 0 where
  pub term : ℕ
  pub voter_id : ℕ
  pub vote_granted : Bool

pub record AppendEntries : Type 0 where
  pub term : ℕ
  pub leader_id : ℕ
  pub prev_log_index : ℕ
  pub prev_log_term : ℕ
  pub entries : List LogEntry
  pub leader_commit : ℕ

pub record AppendResponse : Type 0 where
  pub term : ℕ
  pub follower_id : ℕ
  pub success : Bool
  pub match_index : ℕ

pub data Message : Type 0 where
  request_vote : RequestVote → Message
  request_vote_response : VoteResponse → Message
  append_entries : AppendEntries → Message
  append_entries_response : AppendResponse → Message

-- `struct NodeInner`
pub record NodeInner : Type 0 where
  pub id : ℕ
  pub peers : List ℕ
  pub state : NodeState
  pub current_term : ℕ
  pub voted_for : Option ℕ
  pub log : List LogEntry
  pub commit_index : ℕ
  pub last_applied : ℕ
  pub next_index : Map ℕ
  pub match_index : Map ℕ
  pub votes_received : List ℕ
  pub election_elapsed : ℕ
  pub heartbeat_elapsed : ℕ
  pub election_timeout : ℕ
  pub heartbeat_interval : ℕ
  pub pending_messages : List (ℕ × Message)
  pub pending_committed : List LogEntry

-- `struct Ready`
pub record Ready : Type 0 where
  pub messages : List (ℕ × Message)
  pub committed_entries : List LogEntry
  pub should_persist : Bool

-- `RaftNode::new`
unfoldable pub new_node : ℕ → List ℕ → NodeInner
new_node id peers = record {
  id = id;
  peers = peers;
  state = follower;
  current_term = 0;
  voted_for = none;
  log = [];
  commit_index = 0;
  last_applied = 0;
  next_index = [];
  match_index = [];
  votes_received = [];
  election_elapsed = 0;
  heartbeat_elapsed = 0;
  election_timeout = 10;
  heartbeat_interval = 3;
  pending_messages = [];
  pending_committed = [];
}

-- `RaftNode::quorum_size`
abbrev pub quorum_size : ℕ → ℕ
quorum_size cluster_size = cluster_size / 2 + 1

-- Increment and decrement of a u64.
abbrev pub inc_word : ℕ → ℕ
inc_word n = (n + 1) % 18446744073709551616

abbrev pub dec_word : ℕ → ℕ
dec_word n = (n + 18446744073709551615) % 18446744073709551616
