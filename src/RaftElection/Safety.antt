-- ===== src/RaftElection/Safety.antt =====
-- The elections of tools/vf-evolve/tasks/raft_election/initial.rs over all sequences of calls.
use verified_concurrent.Base.{
  ℕ, suc, ◌+◌, ◌<◌, ◌≡◌, refl, ap, subst, true, none, some, List, [], ◌∷◌, arith, ◌==◌, length, all,
  contains, Bool-cases, inl, inr,
}
use verified_concurrent.Base.Maps.{Map, lookup, insert, lookup-insert, keys, contains-keys}
use verified_concurrent.Raft.Handlers
use verified_concurrent.Raft.Ballots.{Agrees}
use verified_concurrent.Raft.Elections.{leader_votes}
use verified_concurrent.RaftElection.Server.{
  ServerState, follower, candidate, leader, ServerInner, new_server, is_leader,
}
use verified_concurrent.RaftElection.Cluster.{new_servers, new_election}
use verified_concurrent.RaftElection.Net.{Net, Event, start_net, happen, happen_all}
use verified_concurrent.RaftElection.Servers.{server_view, node_state}
use verified_concurrent.RaftElection.Soundness.{Sound, IsSound, happen-Sound}

happen_all-Sound :
    (ids : List ℕ) (n : ℕ) (w : Net) (events : List Event)
    → n + length events < 18446744073709551616
    → IsSound ids n w
    → IsSound ids (n + length events) (happen_all w events)
unfolding happen_all
happen_all-Sound ids n w [] l h = subst (λ m. IsSound ids m w) (omega arith) h
happen_all-Sound ids n w (e ∷ es) l (b, h) =
    subst (λ m. IsSound ids m (happen_all (happen w e) es)) (omega arith)
      (happen_all-Sound ids (n + 1) (happen w e) es (omega arith)
        (happen-Sound ids w h e (omega arith)))

pub lookup-new_servers :
    (ids : List ℕ) (m : Map ServerInner) (i : ℕ) (g : ServerInner)
    → ((j : ℕ) (k : ServerInner) → lookup j m ≡ some k → new_server ≡ k)
    → lookup i (new_servers ids m) ≡ some g
    → new_server ≡ g
unfolding new_servers
lookup-new_servers [] m i g p e = p i g e
lookup-new_servers (id ∷ ids) m i g p e =
    lookup-new_servers ids (insert id new_server m) i g
      (λ j k f. elim (Bool-cases (j == id)) [
        | inl q ↦ ground (arith, lookup-insert id j new_server m)
        | inr q ↦ p j k (ground (arith, lookup-insert id j new_server m))
      ])
      e

length-keys : (m : Map ServerInner) → length m ≡ length (keys m)
unfolding keys
length-keys [] = refl
length-keys ((j, g) ∷ m) = ap suc (length-keys m)

new_server-Agrees :
    (m : Map ServerInner) (i : ℕ)
    → contains i (keys m) ≡ true
    → Agrees (keys m) (λ t u. none) 0 (server_view (length m) i new_server)
unfolding all
new_server-Agrees m i c = record {
  size = length-keys m;
  member = c;
  bound = omega arith;
  vote = λ c e. absurd (ground arith);
  future = λ t l. refl;
  votes = λ f. absurd (ground arith);
  once = λ f. absurd (ground arith);
  majority = λ f. absurd (ground arith);
  mail = refl;
}

start_net-Sound : (ids : List ℕ) → Sound (keys (new_servers ids [])) (λ t u. none) 0 (start_net ids)
unfolding start_net new_election all lookup
start_net-Sound ids = record {
  size = length-keys (new_servers ids []);
  server = λ i g e.
      let p = lookup-new_servers ids [] i g (λ j k f. absurd (ground arith)) e in
      let m : contains i (keys (new_servers ids [])) ≡ true =
        ground (arith, contains-keys i (new_servers ids [])) in
      subst
        (λ g.
          Agrees (keys (new_servers ids [])) (λ t u. none) 0
            (server_view (length (new_servers ids [])) i g))
        p (new_server-Agrees (new_servers ids []) i m);
  requests = refl;
  responses = refl;
  heartbeats = refl;
}

-- Election safety, over all sequences of fewer than 2 ^ 64 events of a cluster and its network: an
-- event is a call with a request, response or heartbeat that an earlier call made, in any order and
-- any number of times, and a response goes to the candidate that its request named and to no other.
-- After them, two servers that lead in the same term are the same server.
pub happen_all-one_leader :
    (ids : List ℕ) (events : List Event) (i j : ℕ) (g k : ServerInner)
    → length events < 18446744073709551616
    → lookup i (happen_all (start_net ids) events).election.servers ≡ some g
    → lookup j (happen_all (start_net ids) events).election.servers ≡ some k
    → is_leader g.state ≡ true
    → is_leader k.state ≡ true
    → g.current_term ≡ k.current_term
    → i ≡ j
happen_all-one_leader ids events i j g k l e f p q x =
    let (b, h) =
      happen_all-Sound (keys (new_servers ids [])) 0 (start_net ids) events (omega arith)
        ((λ t u. none), start_net-Sound ids) in
    let size = (happen_all (start_net ids) events).election.cluster_size in
    leader_votes (server_view size i g) (server_view size j k) (h.server i g e) (h.server j k f)
      (node_leads g.state p) (node_leads k.state q) x
  where
    node_leads : (s : ServerState) → is_leader s ≡ true → Handlers.is_leader (node_state s) ≡ true
    node_leads follower e = absurd (ground arith)
    node_leads candidate e = absurd (ground arith)
    node_leads leader e = refl
