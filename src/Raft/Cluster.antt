-- ===== src/Raft/Cluster.antt =====
-- A cluster of Raft nodes (tools/vf-evolve/tasks/raft_consensus/initial.rs) and its network, as the
-- tests of trait_spec.rs drive one: clocks tick, clients propose, the messages that a node has ready
-- go to the network, and the network delivers any message, in any order and any number of times.
use verified_concurrent.Base.{ℕ, none, some, List, [], ◌∷◌, ◌++◌, get_elem?}
use verified_concurrent.Base.Quorums.{without}
use verified_concurrent.Base.Maps.{Map, lookup, insert}
use verified_concurrent.Raft.State.{Message, NodeInner, new_node}
use verified_concurrent.Raft.Sending.{tick, propose, ready, advance}
use verified_concurrent.Raft.Handlers.{step}

pub record Cluster : Type 0 where
  pub nodes : Map NodeInner
  pub network : List (ℕ × Message)

pub data Action : Type 0 where
  ticks : ℕ → Action
  proposes : ℕ → List ℕ → Action
  sends : ℕ → Action
  delivers : ℕ → Action

-- A node for each identifier, with the others for peers.
unfoldable pub start_nodes : List ℕ → List ℕ → Map NodeInner
unfolding insert new_node
start_nodes all_ids [] = []
start_nodes all_ids (i ∷ is) = insert i (new_node i (without i all_ids)) (start_nodes all_ids is)

unfoldable pub start_cluster : List ℕ → Cluster
unfolding start_nodes
start_cluster ids = record { nodes = start_nodes ids ids; network = [] }

-- A change of one node, if there is one of the identifier.
unfoldable pub at_node : Cluster → ℕ → (NodeInner → NodeInner) → Cluster
unfolding lookup insert
at_node c i f = elim (lookup i c.nodes) [
  | none ↦ c
  | some s ↦ record c { nodes = insert i (f s) c.nodes }
]

-- `node.ready()` and `node.advance(ready)`
unfoldable pub send_ready : Cluster → ℕ → Cluster
unfolding lookup insert
send_ready c i = elim (lookup i c.nodes) [
  | none ↦ c
  | some s ↦ record {
    nodes = insert i (advance s) c.nodes;
    network = c.network ++ (ready s).messages;
  }
]

unfoldable pub deliver : Cluster → ℕ → Cluster
unfolding at_node step
deliver c k = elim (get_elem? c.network k) [
  | none ↦ c
  | some (to, m) ↦ at_node c to (λ s. step s m)
]

unfoldable pub act : Cluster → Action → Cluster
unfolding at_node tick propose send_ready deliver
act c (ticks i) = at_node c i tick
act c (proposes i payload) = at_node c i (λ s. (propose s payload).0)
act c (sends i) = send_ready c i
act c (delivers k) = deliver c k

unfoldable pub run : Cluster → List Action → Cluster
unfolding act
run c [] = c
run c (a ∷ rest) = run (act c a) rest
