-- ===== src/RaftElection/Progress.antt =====
-- `run_election` of tools/vf-evolve/tasks/raft_election/initial.rs among servers of lower terms.
use verified_concurrent.Base.{ℕ, ◌<◌, ◌≡◌, refl, true, some, List, contains}
use verified_concurrent.Base.Maps.{lookup}
use verified_concurrent.RaftElection.Server.{
  candidate, ok, VoteRequest, VoteResponse, ServerInner, answer_request, receive_response,
}
use verified_concurrent.RaftElection.Cluster.{
  RaftElection, quorum_size, store, handle_vote_request, handle_vote_response,
}

-- A candidate with its votes.
abbrev running : ℕ → ℕ → List ℕ → ServerInner
running c t votes = record {
  current_term = t;
  voted_for = some c;
  state = candidate;
  votes_received = votes;
}

pub handle_vote_request_known :
    (e : RaftElection) (id : ℕ) (r : VoteRequest) (g : ServerInner)
    → lookup id e.servers ≡ some g
    → handle_vote_request e id r
      ≡ (store e id (answer_request id r g).0, ok (answer_request id r g).1)
unfolding handle_vote_request
handle_vote_request_known e id r g h = rw (h, handle_vote_request) refl

pub handle_vote_response_known :
    (e : RaftElection) (id : ℕ) (r : VoteResponse) (g : ServerInner)
    → lookup id e.servers ≡ some g
    → handle_vote_response e id r ≡ (
      store e id (receive_response (quorum_size e) r g).0,
      ok (receive_response (quorum_size e) r g).1,
    )
unfolding handle_vote_response
handle_vote_response_known e id r g h = rw (h, handle_vote_response) refl

-- The servers that are still to be asked are in lower terms.
abbrev AreLower : RaftElection → ℕ → List ℕ → Type 0
AreLower e t ids =
    (id : ℕ)
    → contains id ids ≡ true
    → (g : ServerInner) × (lookup id e.servers ≡ some g) × (g.current_term < t)
