-- ===== src/RaftElection/Cluster.antt =====
-- tools/vf-evolve/tasks/raft_election/initial.rs: the methods of `RaftElection`, and the cluster that
-- they and a network of their messages make. A method holds the mutex of one server for its whole
-- length, so a run is a sequence of methods.
use verified_concurrent.Base.{
  ℕ, ◌+◌, ◌%◌, ◌/◌, Bool, true, false, not, Option, none, some, List, [], ◌∷◌, length, retain, leb,
  ◌==◌, if◌then◌else◌,
}
use verified_concurrent.Base.Maps.{Map, lookup, insert, keys}
use verified_concurrent.RaftElection.Server.{
  ServerState, Result, ok, err, not_candidate, server_not_found, VoteRequest, VoteResponse,
  Heartbeat, ServerInner, new_server, is_leader, start_election, answer_request, receive_response,
  follow,
}

-- `struct RaftElection`
pub record RaftElection : Type 0 where
  pub servers : Map ServerInner
  pub cluster_size : ℕ
  pub next_id : ℕ

unfoldable pub new_servers : List ℕ → Map ServerInner → Map ServerInner
unfolding insert
new_servers [] m = m
new_servers (id ∷ ids) m = new_servers ids (insert id new_server m)

-- `server_ids.iter().max().copied().unwrap_or(0)`
abbrev pub greatest : List ℕ → ℕ
greatest [] = 0
greatest (x ∷ xs) = if leb x (greatest xs) then greatest xs else x

-- `RaftElection::new`
unfoldable pub new_election : List ℕ → RaftElection
unfolding new_servers
new_election ids = record {
  servers = new_servers ids [];
  cluster_size = length (new_servers ids []);
  next_id = (greatest ids + 1) % 18446744073709551616;
}

-- `quorum_size`
abbrev pub quorum_size : RaftElection → ℕ
quorum_size e = e.cluster_size / 2 + 1

-- `get_state`
unfoldable pub get_state : RaftElection → ℕ → Option ServerState
unfolding lookup
get_state e id = elim (lookup id e.servers) [ none ↦ none | some g ↦ some g.state ]

abbrev pub leads : Option ServerState → Bool
leads none = false
leads (some s) = is_leader s

-- The servers with one of them in another state.
abbrev pub store : RaftElection → ℕ → ServerInner → RaftElection
store e id g = record e { servers = insert id g e.servers }

-- `timeout`
unfoldable pub timeout : RaftElection → ℕ → RaftElection × Result VoteRequest
unfolding lookup insert start_election
timeout e id = elim (lookup id e.servers) [
  | none ↦ (e, err server_not_found)
  | some g ↦
      let h = start_election id g in
      (store e id h, ok (record { term = h.current_term; candidate_id = id }))
]

-- `handle_vote_request`
unfoldable pub handle_vote_request :
    RaftElection → ℕ → VoteRequest → RaftElection × Result VoteResponse
unfolding lookup insert answer_request
handle_vote_request e id r = elim (lookup id e.servers) [
  | none ↦ (e, err server_not_found)
  | some g ↦ (store e id (answer_request id r g).0, ok (answer_request id r g).1)
]

-- `handle_vote_response`
unfoldable pub handle_vote_response : RaftElection → ℕ → VoteResponse → RaftElection × Result Bool
unfolding lookup insert receive_response
handle_vote_response e id r = elim (lookup id e.servers) [
  | none ↦ (e, err server_not_found)
  | some g ↦ (
    store e id (receive_response (quorum_size e) r g).0,
    ok (receive_response (quorum_size e) r g).1,
  )
]

-- `handle_heartbeat`
unfoldable pub handle_heartbeat : RaftElection → ℕ → Heartbeat → RaftElection × Result (Unit {0})
unfolding lookup insert follow
handle_heartbeat e id m = elim (lookup id e.servers) [
  | none ↦ (e, err server_not_found)
  | some g ↦ (store e id (follow m g), ok tt)
]

-- `create_heartbeat`
unfoldable pub create_heartbeat : RaftElection → ℕ → Result Heartbeat
unfolding lookup
create_heartbeat e id = elim (lookup id e.servers) [
  | none ↦ err server_not_found
  | some g ↦
      if not (is_leader g.state)
      then err not_candidate
      else ok (record { term = g.current_term; leader_id = id })
]

-- `?`: go on with a value, stop at an error.
abbrev pub resume :
    {A B : Type 0}
    → RaftElection × Result A
    → (RaftElection → A → RaftElection × Result B)
    → RaftElection × Result B
resume (e, ok a) f = f e a
resume (e, err x) f = (e, err x)

-- The answer of one server to a request, counted by the candidate.
unfoldable pub poll : RaftElection → ℕ → VoteRequest → ℕ → RaftElection × Result Bool
unfolding handle_vote_request handle_vote_response
poll e candidate_id request id =
    resume (handle_vote_request e id request)
      (λ f response. handle_vote_response f candidate_id response)

-- The loop of `run_election` over the other servers.
unfoldable pub poll_each : RaftElection → ℕ → VoteRequest → List ℕ → RaftElection × Result Bool
unfolding poll get_state
poll_each e candidate_id request [] = (e, ok (leads (get_state e candidate_id)))
poll_each e candidate_id request (id ∷ ids) =
    resume (poll e candidate_id request id)
      (λ f won. elim won [ true ↦ (f, ok true) | false ↦ poll_each f candidate_id request ids ])

-- `run_election`
unfoldable pub run_election : RaftElection → ℕ → RaftElection × Result Bool
unfolding timeout poll_each retain keys
run_election e candidate_id = resume (timeout e candidate_id) (λ f request.
    poll_each f candidate_id request (retain (λ id. not (id == candidate_id)) (keys e.servers)))
