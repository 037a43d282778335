-- ===== src/RaftElection/Servers.antt =====
-- How each method of tools/vf-evolve/tasks/raft_election/initial.rs changes what an election reads of a
-- server, against the ballots of all terms.
use verified_concurrent.Base.{
  ℕ, ◌+◌, ◌/◌, ◌%◌, ◌≤◌, ◌<◌, ◌≡◌, refl, Bool, true, false, ◌&&◌, ◌||◌, not, some, List, [], ◌∷◌,
  ◌++◌, arith, ◌==◌, leb, ltb, if◌then◌else◌, length, contains, same_option, same_option→eq,
  Bool-cases, inl, inr,
}
use verified_concurrent.Raft.State
use verified_concurrent.Raft.State.{NodeState}
use verified_concurrent.Raft.Handlers
use verified_concurrent.Raft.Ballots.{
  Ballots, cast, View, Agrees, Extends, Extends-refl, stepped-Agrees,
}
use verified_concurrent.Raft.Votes.{voted-Agrees, started-Agrees, counted-Agrees, elected-Agrees}
use verified_concurrent.RaftElection.Server.{
  ServerState, follower, candidate, leader, VoteRequest, VoteResponse, Heartbeat, ServerInner,
  is_candidate, start_election, adopt_term, grants, voted, count_vote, receive_response, follow,
}

abbrev pub node_state : ServerState → NodeState
node_state follower = State.follower
node_state candidate = State.candidate
node_state leader = State.leader

-- What an election reads of server `id` of a cluster.
abbrev pub server_view : ℕ → ℕ → ServerInner → View
server_view size id g = record {
  id = id;
  size = size;
  state = node_state g.state;
  term = g.current_term;
  voted = g.voted_for;
  votes = g.votes_received;
  mail = [];
}

-- A response is a vote for the candidate it goes to, if it grants one.
abbrev pub response_ok : List ℕ → Ballots → ℕ → ℕ × VoteResponse → Bool
response_ok ids b n (to, r) =
    leb r.term n
    && (not r.vote_granted
        || (same_option (b r.term r.voter_id) (some to) && contains r.voter_id ids))

-- What a method leaves: further ballots of the server, with which it agrees.
abbrev pub Served : List ℕ → Ballots → ℕ → ℕ → View → Type 0
Served ids b n i v = (b' : Ballots) × Extends b b' i × Agrees ids b' n v

module _ {ids : List ℕ} {b : Ballots} {n : ℕ} {size : ℕ} (i : ℕ) (g : ServerInner)
    (h : Agrees ids b n (server_view size i g)) where
  pub start_election-Served :
      n + 1 < 18446744073709551616
      → Served ids b (n + 1) i (server_view size i (start_election i g))
        × ((start_election i g).current_term ≤ n + 1)
  unfolding start_election
  start_election-Served l =
      let k = h.bound in
      let e : (g.current_term + 1) % 18446744073709551616 ≡ g.current_term + 1 = omega arith in
      let (x, a) = started-Agrees h in rw e ((cast b (g.current_term + 1) i i, x, a), omega arith)

  pub follow-Agrees :
      (m : Heartbeat) → m.term ≤ n → Agrees ids b n (server_view size i (follow m g))
  unfolding follow
  follow-Agrees m l = elim (Bool-cases (leb g.current_term m.term)) [
    | inl e ↦
        let low : ltb m.term m.term ≡ false = ground arith in
        rw (e, low)
          (record {
            size = h.size;
            member = h.member;
            bound = l;
            vote = λ c f. ground (arith, h.vote c, h.future m.term);
            future = λ t f. h.future t (ground arith);
            votes = λ f. absurd (ground arith);
            once = λ f. absurd (ground arith);
            majority = λ f. absurd (ground arith);
            mail = h.mail;
          })
    | inr e ↦ rw e h
  ]

  pub adopt_term-Agrees : (t : ℕ) → t ≤ n → Agrees ids b n (server_view size i (adopt_term g t))
  adopt_term-Agrees t l = elim (Bool-cases (ltb g.current_term t)) [
    | inl e ↦ rw e (stepped-Agrees h t (ground arith) l)
    | inr e ↦ rw e h
  ]

grants-free :
    (g : ServerInner) (r : VoteRequest)
    → grants g r ≡ true
    → (d : ℕ) → g.voted_for ≡ some d
    → d ≡ r.candidate_id
unfolding grants
grants-free g r p d e = ground arith

node_candidate :
    (x : ServerState) → is_candidate x ≡ true → Handlers.is_candidate (node_state x) ≡ true
node_candidate follower e = absurd (ground arith)
node_candidate candidate e = refl
node_candidate leader e = absurd (ground arith)

node_leader : (x : ServerState) → is_candidate x ≡ true → Handlers.is_leader (node_state x) ≡ false
node_leader follower e = absurd (ground arith)
node_leader candidate e = refl
node_leader leader e = absurd (ground arith)

module _ {ids : List ℕ} {b : Ballots} {n : ℕ} {size : ℕ} (i : ℕ) where
  pub voted-Served :
      (g : ServerInner) (r : VoteRequest)
      → Agrees ids b n (server_view size i g)
      → (b' : Ballots) × Extends b b' i
        × Agrees ids b' n (server_view size i (voted g r))
        × (response_ok ids b' n (
          r.candidate_id,
          record { term = (voted g r).current_term; vote_granted = grants g r; voter_id = i },
        )
            ≡ true)
  voted-Served g r h =
      let l = h.bound in
      let m = h.member in
      elim (Bool-cases (grants g r)) [
        | inl e ↦
            let (x, k) = voted-Agrees r.candidate_id h (grants-free g r e) in
            rw e (cast b g.current_term i r.candidate_id, x, k, ground arith)
        | inr e ↦ rw e (b, Extends-refl b i, h, ground arith)
      ]

  won-Agrees :
      (quorum : ℕ) (g : ServerInner)
      → quorum ≡ size / 2 + 1
      → is_candidate g.state ≡ true
      → Agrees ids b n (server_view size i g)
      → Agrees ids b n (
          server_view size i
            (if leb quorum (length g.votes_received) then record g { state = leader } else g))
  won-Agrees quorum g q c h = elim (Bool-cases (leb quorum (length g.votes_received))) [
    | inl e ↦ rw e (elected-Agrees h (node_candidate g.state c) (ground arith))
    | inr e ↦ rw e h
  ]

  count_vote-Agrees :
      (quorum : ℕ) (r : VoteResponse) (g : ServerInner)
      → quorum ≡ size / 2 + 1
      → response_ok ids b n (i, r) ≡ true
      → is_candidate g.state ≡ true
      → r.term ≡ g.current_term
      → Agrees ids b n (server_view size i g)
      → Agrees ids b n (server_view size i (count_vote quorum r g).0)
  unfolding count_vote
  count_vote-Agrees quorum r g q k c t h =
      elim (Bool-cases (r.vote_granted && not (contains r.voter_id g.votes_received))) [
        | inl e ↦
            let more =
              counted-Agrees r.voter_id h (node_leader g.state c)
                (ground (arith, same_option→eq (b r.term r.voter_id) (some i))) (ground arith)
                (ground arith) in
            rw e (
              won-Agrees quorum (record g { votes_received = g.votes_received ++ r.voter_id ∷ [] })
                q c more)
        | inr e ↦ rw e (won-Agrees quorum g q c h)
      ]

  pub receive_response-Agrees :
      (quorum : ℕ) (r : VoteResponse) (g : ServerInner)
      → quorum ≡ size / 2 + 1
      → response_ok ids b n (i, r) ≡ true
      → Agrees ids b n (server_view size i g)
      → Agrees ids b n (server_view size i (receive_response quorum r g).0)
  unfolding receive_response
  receive_response-Agrees quorum r g q k h = elim (Bool-cases (ltb g.current_term r.term)) [
    | inl e ↦ rw e (stepped-Agrees h r.term (ground arith) (ground arith))
    | inr e ↦ elim (Bool-cases (not (is_candidate g.state) || not (r.term == g.current_term))) [
      | inl f ↦ rw (e, f) h
      | inr f ↦ rw (e, f) (count_vote-Agrees quorum r g q k (ground arith) (ground arith) h)
    ]
  ]
