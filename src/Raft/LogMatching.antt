-- ===== src/Raft/LogMatching.antt =====
-- The logs of the nodes of a Raft cluster (tools/vf-evolve/tasks/raft_consensus/initial.rs), over all
-- runs of the cluster.
use verified_concurrent.Base.{
  ℕ, ◌+◌, ◌≤◌, ◌<◌, ◌≡◌, refl, ap, sym, subst, ◌∙◌, true, none, some, List, [], ◌∷◌, arith, length,
  contains, distinct, get_elem?, Bool-cases, inl, inr,
}
use verified_concurrent.Base.Quorums.{without}
use verified_concurrent.Base.Maps.{lookup}
use verified_concurrent.Raft.State.{LogEntry, NodeInner, new_node}
use verified_concurrent.Raft.Handlers.{is_leader}
use verified_concurrent.Raft.Cluster.{Cluster, Action, start_cluster, act, run}
use verified_concurrent.Raft.Ballots.{Ballots}
use verified_concurrent.Raft.Elections.{Sound, lookup-start_nodes, start_cluster-Sound, act-Sound}
use verified_concurrent.Raft.Logs.{indexed}
use verified_concurrent.Raft.Commits.{get_elem?-some}
use verified_concurrent.Raft.Histories.{Histories, log_view, Matches}
use verified_concurrent.Raft.Reigns.{get_elem?-length}
use verified_concurrent.Raft.Crownings.{Lawful-later}
use verified_concurrent.Raft.Chronicles.{Chronicle, act-Chronicle}

abbrev no_histories : Histories
no_histories = record { ruler = λ t. none; log = λ t. [] }

start_cluster-Chronicle :
    (ids : List ℕ) → Chronicle ids (λ t u. none) 0 no_histories (start_cluster ids)
unfolding start_cluster new_node indexed
start_cluster-Chronicle ids = record {
  lawful = record {
    origin = refl;
    empty = λ t e. refl;
    told = λ t k e f. absurd (ground arith);
    bound = λ t k e f. absurd (ground arith);
    elected = λ t i f. absurd (ground arith);
  };
  node = λ i s e. elim (Bool-cases (contains i ids)) [
    | inl m ↦
        let f : new_node i (without i ids) ≡ s = ground (arith, lookup-start_nodes ids ids i) in
        subst (λ s. Matches no_histories (log_view s)) f
          (record {
            told = λ k e f. absurd (ground arith);
            indices = refl;
            leads = λ x. absurd (ground arith);
            runs = λ x. absurd (ground arith);
            future = λ t l e. absurd (ground arith);
            mail = refl;
          })
    | inr m ↦ absurd (ground (arith, lookup-start_nodes ids ids i))
  ];
  mail = refl;
}

-- Some ballots and logs of leaders explain a cluster.
abbrev IsExplained : List ℕ → ℕ → Cluster → Type 0
IsExplained ids n c = (b : Ballots) × (h : Histories) × Sound ids b n c × Chronicle ids b n h c

run-IsExplained :
    (ids : List ℕ) (n : ℕ) (c : Cluster) (actions : List Action)
    → n + length actions < 18446744073709551616
    → IsExplained ids n c
    → IsExplained ids (n + length actions) (run c actions)
unfolding run
run-IsExplained ids n c [] l x = subst (λ m. IsExplained ids m c) (omega arith) x
run-IsExplained ids n c (a ∷ rest) l (b, h, z, y) =
    let (b', p, z') = act-Sound ids b c a (omega arith) z in
    let (h', y') = act-Chronicle c a (omega arith) z y in
    let y2 : Chronicle ids b' (n + 1) h' (act c a) = record {
      lawful = Lawful-later p (omega arith) y'.lawful;
      node = y'.node;
      mail = y'.mail;
    } in
    subst (λ m. IsExplained ids m (run (act c a) rest)) (omega arith)
      (run-IsExplained ids (n + 1) (act c a) rest (omega arith) (b', h', z', y2))

runs-IsExplained :
    (ids : List ℕ) (actions : List Action)
    → distinct ids ≡ true
    → length actions < 18446744073709551616
    → IsExplained ids (0 + length actions) (run (start_cluster ids) actions)
runs-IsExplained ids actions d l =
    run-IsExplained ids 0 (start_cluster ids) actions (omega arith)
      ((λ t u. none), no_histories, start_cluster-Sound ids d, start_cluster-Chronicle ids)

-- Log matching, over all runs of a cluster with distinct identifiers, of fewer than 2^64 steps, with
-- messages lost, repeated and reordered: where the logs of two nodes have entries of the same term at
-- a position, they are the same at that position and at all positions before it.
pub run-logs_match :
    (ids : List ℕ) (actions : List Action) (i j k : ℕ) (s t : NodeInner) (e f : LogEntry)
    → distinct ids ≡ true
    → length actions < 18446744073709551616
    → lookup i (run (start_cluster ids) actions).nodes ≡ some s
    → lookup j (run (start_cluster ids) actions).nodes ≡ some t
    → get_elem? s.log k ≡ some e
    → get_elem? t.log k ≡ some f
    → e.term ≡ f.term
    → (m : ℕ) → m ≤ k
    → get_elem? s.log m ≡ get_elem? t.log m
run-logs_match ids actions i j k s t e f d l p q x y r m o =
    let (b, h, z, c) = runs-IsExplained ids actions d l in
    let (u, g) = get_elem?-some m s.log (let w = get_elem?-length s.log k e x in omega arith) in
    let (v, g') = get_elem?-some m t.log (let w = get_elem?-length t.log k f y in omega arith) in
    let a = (c.node i s p).told k e x m u o g in
    let a' =
      subst (λ t. get_elem? (h.log t) m ≡ some v) (sym r) ((c.node j t q).told k f y m v o g') in
    g ∙ (sym a ∙ a') ∙ sym g'

-- Over all runs of a cluster with distinct identifiers, of fewer than 2^64 steps, the log of a leader
-- has each entry of its term that the log of any node has, at the same position, and all that the
-- log of that node has before it.
pub run-leader_completes :
    (ids : List ℕ) (actions : List Action) (i j k : ℕ) (s t : NodeInner) (e : LogEntry)
    → distinct ids ≡ true
    → length actions < 18446744073709551616
    → lookup i (run (start_cluster ids) actions).nodes ≡ some s
    → lookup j (run (start_cluster ids) actions).nodes ≡ some t
    → is_leader s.state ≡ true
    → get_elem? t.log k ≡ some e
    → e.term ≡ s.current_term
    → (m : ℕ) → m ≤ k
    → get_elem? s.log m ≡ get_elem? t.log m
run-leader_completes ids actions i j k s t e d l p q x y r m o =
    let (b, h, z, c) = runs-IsExplained ids actions d l in
    let (v, g) = get_elem?-some m t.log (let w = get_elem?-length t.log k e y in omega arith) in
    let a = subst (λ t. get_elem? (h.log t) m ≡ some v) r ((c.node j t q).told k e y m v o g) in
    let b = ((c.node i s p).leads x).1 in ap (λ l. get_elem? l m) (sym b) ∙ a ∙ sym g

-- Over all runs of a cluster with distinct identifiers, of fewer than 2^64 steps, each entry of the
-- log of a node has the index of its position, counted from 1.
pub run-indexed :
    (ids : List ℕ) (actions : List Action) (i : ℕ) (s : NodeInner)
    → distinct ids ≡ true
    → length actions < 18446744073709551616
    → lookup i (run (start_cluster ids) actions).nodes ≡ some s
    → indexed 0 s.log ≡ true
run-indexed ids actions i s d l p =
    let (b, h, z, c) = runs-IsExplained ids actions d l in (c.node i s p).indices
