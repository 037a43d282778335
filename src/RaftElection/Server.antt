-- ===== src/RaftElection/Server.antt =====
-- tools/vf-evolve/tasks/raft_election/initial.rs: messages, the state of a server, and what a method
-- does while it holds the mutex of a server.
use verified_concurrent.Base.{
  ℕ, ◌+◌, ◌%◌, Bool, true, false, ◌&&◌, ◌||◌, not, Option, none, some, List, [], ◌∷◌, ◌++◌, length,
  contains, leb, ltb, ◌==◌, is_some, same_option, if◌then◌else◌,
}

-- `enum ServerState`
pub data ServerState : Type 0 where
  follower : ServerState
  candidate : ServerState
  leader : ServerState

-- `enum RaftError`
pub data RaftError : Type 0 where
  not_candidate : RaftError
  already_voted : RaftError
  stale_term : RaftError
  cluster_too_small : RaftError
  server_not_found : RaftError

-- `Result<A, RaftError>`
pub data Result {ℓ} (A : Type ℓ) : Type ℓ where
  ok : A → Result A
  err : RaftError → Result A

-- `struct VoteRequest`
pub record VoteRequest : Type 0 where
  pub term : ℕ
  pub candidate_id : ℕ

-- `struct VoteResponse`
pub record VoteResponse : Type 0 where
  pub term : ℕ
  pub vote_granted : Bool
  pub voter_id : ℕ

-- `struct Heartbeat`
pub record Heartbeat : Type 0 where
  pub term : ℕ
  pub leader_id : ℕ

-- `struct ServerInner`
pub record ServerInner : Type 0 where
  pub current_term : ℕ
  pub voted_for : Option ℕ
  pub state : ServerState
  pub votes_received : List ℕ

abbrev pub new_server : ServerInner
new_server = record { current_term = 0; voted_for = none; state = follower; votes_received = [] }

abbrev pub is_candidate : ServerState → Bool
is_candidate candidate = true
is_candidate _ = false

abbrev pub is_leader : ServerState → Bool
is_leader leader = true
is_leader _ = false

-- `timeout`, whose term is a u64.
unfoldable pub start_election : ℕ → ServerInner → ServerInner
start_election id g = record {
  current_term = (g.current_term + 1) % 18446744073709551616;
  state = candidate;
  voted_for = some id;
  votes_received = id ∷ [];
}

-- What a higher term makes of a server.
abbrev pub step_down : ServerInner → ℕ → ServerInner
step_down g term = record {
  current_term = term;
  state = follower;
  voted_for = none;
  votes_received = [];
}

abbrev pub adopt_term : ServerInner → ℕ → ServerInner
adopt_term g term = if ltb g.current_term term then step_down g term else g

-- The test for a vote, in the term of the server.
unfoldable pub grants : ServerInner → VoteRequest → Bool
grants g r =
    leb g.current_term r.term
    && (not (is_some g.voted_for) || same_option g.voted_for (some r.candidate_id))

abbrev pub voted : ServerInner → VoteRequest → ServerInner
voted g r = if grants g r then record g { voted_for = some r.candidate_id } else g

-- `handle_vote_request`
unfoldable pub answer_request : ℕ → VoteRequest → ServerInner → ServerInner × VoteResponse
unfolding grants
answer_request id r g =
    let h = adopt_term g r.term in
    (
      voted h r,
      record { term = (voted h r).current_term; vote_granted = grants h r; voter_id = id },
    )

-- The vote that a candidate receives in its term, and whether it has won.
unfoldable pub count_vote : ℕ → VoteResponse → ServerInner → ServerInner × Bool
unfolding contains
count_vote quorum r g =
    let h : ServerInner =
      (if r.vote_granted && not (contains r.voter_id g.votes_received)
        then record g { votes_received = g.votes_received ++ r.voter_id ∷ [] }
        else g) in
    let won = leb quorum (length h.votes_received) in
    (if won then record h { state = leader } else h, won)

-- `handle_vote_response`
unfoldable pub receive_response : ℕ → VoteResponse → ServerInner → ServerInner × Bool
unfolding count_vote
receive_response quorum r g =
    if ltb g.current_term r.term
    then (step_down g r.term, false)
    else if not (is_candidate g.state) || not (r.term == g.current_term)
    then (g, false)
    else count_vote quorum r g

-- `handle_heartbeat`. The test of a higher term comes after the assignment of the term.
unfoldable pub follow : Heartbeat → ServerInner → ServerInner
follow m g =
    if leb g.current_term m.term
    then (let h : ServerInner = record g { current_term = m.term; state = follower } in
        let k : ServerInner =
          (if ltb h.current_term m.term then record h { voted_for = none } else h) in
        record k { votes_received = [] })
    else g
