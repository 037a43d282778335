-- ===== src/Raft/Elections.antt =====
-- The elections of a cluster of Raft nodes (tools/vf-evolve/tasks/raft_consensus/initial.rs), over
-- all runs of the cluster.
use verified_concurrent.Base.{
  ℕ, ◌+◌, ◌≤◌, ◌<◌, ◌≡◌, refl, ◌∙◌, sym, subst, true, false, none, some, List, [], ◌∷◌, ◌++◌, arith,
  ◌==◌, if◌then◌else◌, length, get_elem?, contains, distinct, all, all-append, all-get_elem?,
  Bool-cases, Option-cases, inl, inr,
}
use verified_concurrent.Base.Quorums.{without, length-without, common_element}
use verified_concurrent.Base.Maps.{lookup, insert, lookup-insert}
use verified_concurrent.Raft.State.{NodeState, NodeInner, new_node}
use verified_concurrent.Raft.Sending.{tick, propose, advance}
use verified_concurrent.Raft.Handlers.{is_leader, step}
use verified_concurrent.Raft.Ballots.{
  Ballots, View, view, is_follower, mail_ok, Agrees, Extends-refl, mail-Extends, Agrees-Extends,
  later-Agrees, cleared-Agrees,
}
use verified_concurrent.Raft.Votes.{Moved}
use verified_concurrent.Raft.Moves.{step-Moved, tick-Moved, propose-Agrees}
use verified_concurrent.Raft.Frames.{propose-id}
use verified_concurrent.Raft.Cluster.{
  Cluster, Action, ticks, proposes, sends, delivers, start_nodes, start_cluster, at_node,
  send_ready, deliver, act, run,
}

-- All nodes and the network agree with the ballots.
pub record Sound (ids : List ℕ) (b : Ballots) (n : ℕ) (c : Cluster) : Type 0 where
  pub node :
      (i : ℕ) (s : NodeInner) → lookup i c.nodes ≡ some s → (s.id ≡ i) × Agrees ids b n (view s)
  pub mail : all (mail_ok ids b n) c.network ≡ true

-- A cluster that agrees with some ballots, which have terms up to `n`.
abbrev pub IsSound : List ℕ → ℕ → Cluster → Type 0
IsSound ids n c = (b : Ballots) × Sound ids b n c

-- A cluster that agrees with some ballots, in which those given are kept.
abbrev pub Grown : List ℕ → Ballots → ℕ → Cluster → Type 0
Grown ids b n c =
    (b' : Ballots) × ((t u c : ℕ) → b t u ≡ some c → b' t u ≡ some c) × Sound ids b' n c

pub lookup-start_nodes :
    (ids is : List ℕ) (i : ℕ)
    → lookup i (start_nodes ids is)
      ≡ (if contains i is then some (new_node i (without i ids)) else none)
unfolding start_nodes lookup contains
lookup-start_nodes ids [] i = refl
lookup-start_nodes ids (j ∷ is) i = ground (
  arith,
  lookup-insert j i (new_node j (without j ids)) (start_nodes ids is),
  lookup-start_nodes ids is i,
)

new_node-Agrees :
    (ids : List ℕ) (i : ℕ)
    → distinct ids ≡ true
    → contains i ids ≡ true
    → Agrees ids (λ t u. none) 0 (view (new_node i (without i ids)))
unfolding new_node all
new_node-Agrees ids i d m = record {
  size = length-without i ids d m;
  member = m;
  bound = omega arith;
  vote = λ c e. absurd (ground arith);
  future = λ t l. refl;
  votes = λ f. absurd (ground arith);
  once = λ f. absurd (ground arith);
  majority = λ f. absurd (ground arith);
  mail = refl;
}

pub start_cluster-Sound :
    (ids : List ℕ) → distinct ids ≡ true → Sound ids (λ t u. none) 0 (start_cluster ids)
unfolding start_cluster all
start_cluster-Sound ids d = record {
  node = λ i s e. elim (Bool-cases (contains i ids)) [
    | inl m ↦
        let f : new_node i (without i ids) ≡ s = ground (arith, lookup-start_nodes ids ids i) in
        subst (λ s. (s.id ≡ i) × Agrees ids (λ t u. none) 0 (view s)) f
          (unfold new_node in refl, new_node-Agrees ids i d m)
    | inr m ↦ absurd (ground (arith, lookup-start_nodes ids ids i))
  ];
  mail = refl;
}

module _ (ids : List ℕ) {n : ℕ} where
  -- One node moves.
  Moved-Sound :
      (b : Ballots) (n' : ℕ) (c : Cluster) (i : ℕ) (t : NodeInner)
      → n ≤ n'
      → Sound ids b n c
      → Moved ids b n' i (view t)
      → Grown ids b n' (record c { nodes = insert i t c.nodes })
  Moved-Sound b n' c i t l h (b', x, a, e) = (
    b',
    x.keeps,
    record {
      node = λ j s f. elim (Bool-cases (j == i)) [
        | inl p ↦
            let g : t ≡ s = ground (arith, lookup-insert i j t c.nodes) in
            subst (λ s. (s.id ≡ j) × Agrees ids b' n' (view s)) g (ground arith, a)
        | inr p ↦
            let (q, k) = h.node j s (ground (arith, lookup-insert i j t c.nodes)) in
            (q, Agrees-Extends ids x l (λ z. absurd (ground arith)) k)
      ];
      mail = mail-Extends ids x l c.network h.mail;
    },
  )

  later-Sound : (b : Ballots) (n' : ℕ) (c : Cluster) → n ≤ n' → Sound ids b n c → Grown ids b n' c
  later-Sound b n' c l h = (
    b,
    (λ t u c p. p),
    record {
      node = λ i s e. let (p, a) = h.node i s e in (p, later-Agrees a n' l);
      mail = mail-Extends ids (Extends-refl b 0) l c.network h.mail;
    },
  )

  at_node-Sound :
      (b : Ballots) (n' : ℕ) (c : Cluster) (i : ℕ) (f : NodeInner → NodeInner)
      → n ≤ n'
      → Sound ids b n c
      → ((s : NodeInner) → s.id ≡ i → Agrees ids b n (view s) → Moved ids b n' s.id (view (f s)))
      → Grown ids b n' (at_node c i f)
  unfolding at_node
  at_node-Sound b n' c i f l h k = elim (Option-cases (lookup i c.nodes)) [
    | inl e ↦ rw (e, at_node) (later-Sound b n' c l h)
    | inr (s, e) ↦
        let (p, a) = h.node i s e in
        rw (e, at_node)
          (Moved-Sound b n' c i (f s) l h (subst (λ i. Moved ids b n' i (view (f s))) p (k s p a)))
  ]

  kept-Moved :
      (b : Ballots) (s t : NodeInner)
      → Agrees ids b n (view t)
      → t.id ≡ s.id
      → Moved ids b (n + 1) s.id (view t)
  kept-Moved b s t h e = (b, Extends-refl b s.id, later-Agrees h (n + 1) (omega arith), e)

  later-Moved : (b : Ballots) (i : ℕ) (v : View) → Moved ids b n i v → Moved ids b (n + 1) i v
  later-Moved b i v (b', x, h, e) = (b', x, later-Agrees h (n + 1) (omega arith), e)

  deliver-Sound :
      (b : Ballots) (c : Cluster) (k : ℕ) → Sound ids b n c → Grown ids b (n + 1) (deliver c k)
  unfolding deliver
  deliver-Sound b c k h = elim (Option-cases (get_elem? c.network k)) [
    | inl e ↦ rw (e, deliver) (later-Sound b (n + 1) c (omega arith) h)
    | inr ((to, m), e) ↦
        let ok = all-get_elem? (mail_ok ids b n) c.network k (to, m) h.mail e in
        rw (e, deliver)
          (at_node-Sound b (n + 1) c to (λ s. step s m) (omega arith) h
            (λ s p a.
              later-Moved b s.id (view (step s m))
                (step-Moved s m (subst (λ i. mail_ok ids b n (i, m) ≡ true) (sym p) ok) a)))
  ]

  send_ready-Sound :
      (b : Ballots) (c : Cluster) (i : ℕ) → Sound ids b n c → Grown ids b (n + 1) (send_ready c i)
  unfolding send_ready
  send_ready-Sound b c i h = elim (Option-cases (lookup i c.nodes)) [
    | inl e ↦ rw (e, send_ready) (later-Sound b (n + 1) c (omega arith) h)
    | inr (s, e) ↦
        let (p, a) = h.node i s e in
        let sent : Cluster = record c { network = c.network ++ s.pending_messages } in
        let k : Sound ids b n sent = record {
          node = h.node;
          mail =
              ground
                (arith, h.mail, a.mail, all-append (mail_ok ids b n) c.network s.pending_messages);
        } in
        rw (e, send_ready)
          (Moved-Sound b (n + 1) sent i (advance s) (omega arith) k (
            subst (λ i. Moved ids b (n + 1) i (view (advance s))) p
              (kept-Moved b s (advance s) (cleared-Agrees a) refl)))
  ]

  pub act-Sound :
      (b : Ballots) (c : Cluster) (a : Action)
      → n + 1 < 18446744073709551616
      → Sound ids b n c
      → Grown ids b (n + 1) (act c a)
  unfolding act
  act-Sound b c (ticks i) l h =
      at_node-Sound b (n + 1) c i tick (omega arith) h (λ s p a. tick-Moved s l a)
  act-Sound b c (proposes i x) l h =
      at_node-Sound b (n + 1) c i (λ s. (propose s x).0) (omega arith) h
        (λ s p a. kept-Moved b s (propose s x).0 (propose-Agrees s x a) (propose-id s x))
  act-Sound b c (sends i) l h = send_ready-Sound b c i h
  act-Sound b c (delivers k) l h = deliver-Sound b c k h

pub run-Sound :
    (ids : List ℕ) (n : ℕ) (c : Cluster) (actions : List Action)
    → n + length actions < 18446744073709551616
    → IsSound ids n c
    → IsSound ids (n + length actions) (run c actions)
unfolding run
run-Sound ids n c [] l h = subst (λ m. IsSound ids m c) (omega arith) h
run-Sound ids n c (a ∷ rest) l (b, h) =
    let (b', x, k) = act-Sound ids b c a (omega arith) h in
    subst (λ m. IsSound ids m (run (act c a) rest)) (omega arith)
      (run-Sound ids (n + 1) (act c a) rest (omega arith) (b', k))

pub leader_votes :
    {ids : List ℕ} {b : Ballots} {n : ℕ} (v w : View)
    → Agrees ids b n v
    → Agrees ids b n w
    → is_leader v.state ≡ true
    → is_leader w.state ≡ true
    → v.term ≡ w.term
    → v.id ≡ w.id
leader_votes {ids} {b} v w h k l m t =
    let f : is_follower v.state ≡ false = leads v.state l in
    let g : is_follower w.state ≡ false = leads w.state m in
    let (u, p, q) =
      common_element v.votes w.votes ids (h.once f) (k.once g) (λ u i. (h.votes f u i).1)
        (λ u i. (k.votes g u i).1) (ground (arith, h.majority l, k.majority m, h.size, k.size)) in
    let x = (h.votes f u p).0 in
    let y = subst (λ t. b t u ≡ some w.id) (sym t) (k.votes g u q).0 in ground (arith, x, y)
  where
    leads : (c : NodeState) → is_leader c ≡ true → is_follower c ≡ false
    leads c e = ground arith

-- Election safety, over all runs of a cluster with distinct identifiers, of fewer than 2^64 steps:
-- in every order of ticks, proposals, sends and deliveries, with messages lost, repeated and
-- reordered, two nodes that lead in the same term are the same node.
pub run-one_leader :
    (ids : List ℕ) (actions : List Action) (i j : ℕ) (s t : NodeInner)
    → distinct ids ≡ true
    → length actions < 18446744073709551616
    → lookup i (run (start_cluster ids) actions).nodes ≡ some s
    → lookup j (run (start_cluster ids) actions).nodes ≡ some t
    → is_leader s.state ≡ true
    → is_leader t.state ≡ true
    → s.current_term ≡ t.current_term
    → i ≡ j
run-one_leader ids actions i j s t d l e f p q x =
    let (b, h) =
      run-Sound ids 0 (start_cluster ids) actions (omega arith)
        ((λ t u. none), start_cluster-Sound ids d) in
    let (y, a) = h.node i s e in
    let (z, k) = h.node j t f in sym y ∙ leader_votes (view s) (view t) a k p q x ∙ z
