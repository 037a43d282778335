-- ===== src/RaftElection/Net.antt =====
-- Servers of tools/vf-evolve/tasks/raft_election/initial.rs and the messages that they have made. Any
-- of these reaches any server at any time, but a response to a request reaches only the candidate that
-- asked for it.
use verified_concurrent.Base.{ℕ, none, some, List, [], ◌∷◌, ◌++◌, get_elem?}
use verified_concurrent.RaftElection.Server.{Result, ok, err, VoteRequest, VoteResponse, Heartbeat}
use verified_concurrent.RaftElection.Cluster.{
  RaftElection, new_election, timeout, handle_vote_request, handle_vote_response, handle_heartbeat,
  create_heartbeat,
}

pub record Net : Type 0 where
  pub election : RaftElection
  pub requests : List VoteRequest
  pub responses : List (ℕ × VoteResponse)
  pub heartbeats : List Heartbeat

pub data Event : Type 0 where
  times_out : ℕ → Event
  is_asked : ℕ → ℕ → Event
  counts : ℕ → Event
  beats : ℕ → Event
  hears : ℕ → ℕ → Event

unfoldable pub start_net : List ℕ → Net
unfolding new_election
start_net ids = record {
  election = new_election ids;
  requests = [];
  responses = [];
  heartbeats = [];
}

abbrev pub with_request : Net → RaftElection × Result VoteRequest → Net
with_request w (e, ok r) = record w { election = e; requests = w.requests ++ r ∷ [] }
with_request w (e, err x) = record w { election = e }

unfoldable pub time_out : Net → ℕ → Net
unfolding timeout
time_out w i = with_request w (timeout w.election i)

abbrev pub with_response : Net → ℕ → RaftElection × Result VoteResponse → Net
with_response w to (e, ok r) = record w { election = e; responses = w.responses ++ (to, r) ∷ [] }
with_response w to (e, err x) = record w { election = e }

unfoldable pub ask : Net → ℕ → VoteRequest → Net
unfolding handle_vote_request
ask w i r = with_response w r.candidate_id (handle_vote_request w.election i r)

unfoldable pub count : Net → ℕ → VoteResponse → Net
unfolding handle_vote_response
count w i r = record w { election = (handle_vote_response w.election i r).0 }

unfoldable pub beat : Net → ℕ → Net
unfolding create_heartbeat
beat w i = elim (create_heartbeat w.election i) [
  | ok m ↦ record w { heartbeats = w.heartbeats ++ m ∷ [] }
  | err x ↦ w
]

unfoldable pub hear : Net → ℕ → Heartbeat → Net
unfolding handle_heartbeat
hear w i m = record w { election = (handle_heartbeat w.election i m).0 }

-- One event; the k-th message is one that was made.
unfoldable pub happen : Net → Event → Net
unfolding time_out ask count beat hear
happen w (times_out i) = time_out w i
happen w (is_asked k i) = elim (get_elem? w.requests k) [ none ↦ w | some r ↦ ask w i r ]
happen w (counts k) = elim (get_elem? w.responses k) [ none ↦ w | some (i, r) ↦ count w i r ]
happen w (beats i) = beat w i
happen w (hears k i) = elim (get_elem? w.heartbeats k) [ none ↦ w | some m ↦ hear w i m ]

unfoldable pub happen_all : Net → List Event → Net
unfolding happen
happen_all w [] = w
happen_all w (e ∷ es) = happen_all (happen w e) es
