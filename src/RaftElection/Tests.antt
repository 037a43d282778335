-- ===== src/RaftElection/Tests.antt =====
-- Runs of tools/vf-evolve/tasks/raft_election/initial.rs and the theorem about them at a concrete run.
use verified_concurrent.Base.{ℕ, ◌≡◌, refl, true, false, some, List, [], ◌∷◌, unwrap_or, arith}
use verified_concurrent.Base.Maps.{lookup}
use verified_concurrent.RaftElection.Server.{
  ServerInner, VoteRequest, VoteResponse, follower, leader, new_server, ok, follow,
}
use verified_concurrent.RaftElection.Cluster.{
  RaftElection, new_election, run_election, timeout, handle_vote_request, handle_vote_response,
}
use verified_concurrent.RaftElection.Net.{
  Event, times_out, is_asked, counts, beats, hears, start_net, happen_all,
}
use verified_concurrent.RaftElection.Safety.{happen_all-one_leader}

abbrev ids : List ℕ
ids = 1 ∷ 2 ∷ 3 ∷ []

-- Server 1 is elected by server 2, and server 3 hears of it.
abbrev election : List Event
election = times_out 1 ∷ is_asked 0 2 ∷ counts 0 ∷ beats 1 ∷ hears 0 3 ∷ []

abbrev server_at : ℕ → List Event → ServerInner
server_at i events =
    unwrap_or new_server (lookup i (happen_all (start_net ids) events).election.servers)

happen_all-one_leader_example : ◌≡◌ {A = ℕ} 1 1
unfolding happen_all start_net
happen_all-one_leader_example =
    happen_all-one_leader ids election 1 1 (server_at 1 election) (server_at 1 election)
      (omega arith) refl refl refl refl refl

three_servers_elect : (run_election (new_election ids) 2).1 ≡ ok true
unfolding run_election new_election
three_servers_elect = refl

-- Servers 1 and 2 both start an election, server 3 votes for server 1, and a caller hands its response
-- to both, which no event of a Net does: both lead in term 1.
abbrev two_candidates : RaftElection
two_candidates = (timeout (timeout (new_election ids) 1).0 2).0

abbrev request : VoteRequest
request = record { term = 1; candidate_id = 1 }

abbrev response : VoteResponse
response = record { term = 1; vote_granted = true; voter_id = 3 }

abbrev handed_to_both : RaftElection
handed_to_both =
    (handle_vote_response
      (handle_vote_response (handle_vote_request two_candidates 3 request).0 1 response).0 2
      response).0

misrouted_response_elects_two :
    ((timeout (new_election ids) 1).1 ≡ ok request)
    × ((handle_vote_request two_candidates 3 request).1 ≡ ok response)
    × (lookup 1 handed_to_both.servers
        ≡ some (record {
          current_term = 1;
          voted_for = some 1;
          state = leader;
          votes_received = 1 ∷ 3 ∷ [];
        }))
    × (lookup 2 handed_to_both.servers
        ≡ some (record {
          current_term = 1;
          voted_for = some 2;
          state = leader;
          votes_received = 2 ∷ 3 ∷ [];
        }))
unfolding timeout new_election handle_vote_request handle_vote_response lookup
misrouted_response_elects_two = (refl, refl, refl, refl)

-- The only server of a cluster has a majority by its own vote, and is not elected.
one_server_does_not_elect : (run_election (new_election (1 ∷ [])) 1).1 ≡ ok false
unfolding run_election new_election
one_server_does_not_elect = refl

-- A heartbeat of a higher term leaves the vote of the term before.
heartbeat_keeps_vote :
    follow
      (record { term = 5; leader_id = 2 })
      (record new_server { current_term = 4; voted_for = some 3 })
    ≡ record { current_term = 5; voted_for = some 3; state = follower; votes_received = [] }
unfolding follow
heartbeat_keeps_vote = refl
