-- ===== src/Raft/Chronicles.antt =====
-- The logs of a cluster of Raft nodes (tools/vf-evolve/tasks/raft_consensus/initial.rs), over all runs
-- of the cluster.
use verified_concurrent.Base.{
  ℕ, zero, suc, ◌+◌, ◌<◌, ◌≡◌, refl, sym, subst, true, some, List, [], ◌∷◌, ◌++◌, arith, ◌==◌,
  get_elem?, all-get_elem?, Bool-cases, Option-cases, inl, inr,
}
use verified_concurrent.Base.Maps.{lookup, insert, lookup-insert}
use verified_concurrent.Raft.State.{
  Message, request_vote, request_vote_response, append_entries, append_entries_response, NodeInner,
}
use verified_concurrent.Raft.Sending.{tick, propose, advance}
use verified_concurrent.Raft.Handlers.{step}
use verified_concurrent.Raft.Cluster.{
  Cluster, Action, ticks, proposes, sends, delivers, at_node, send_ready, deliver, act,
}
use verified_concurrent.Raft.Ballots.{Ballots, view, mail_ok, Agrees}
use verified_concurrent.Raft.Elections.{Sound}
use verified_concurrent.Raft.Histories.{
  Histories, Fits, AllFit, LogView, log_view, Matches, Matches-Evolves, AllFit-Evolves, Lawful,
}
use verified_concurrent.Raft.Reigns.{AllFit-append}
use verified_concurrent.Raft.Matching.{
  handle_request_vote-Matches, handle_append_entries-Matches,
  handle_append_entries_response-Matches, tick-Matches,
}
use verified_concurrent.Raft.Crownings.{
  Crowned, Lawful-later, kept-Crowned, handle_vote_response-Crowned, propose-Crowned,
}

-- All nodes and the network match the logs of the leaders.
pub record Chronicle (ids : List ℕ) (b : Ballots) (n : ℕ) (h : Histories) (c : Cluster)
    : Type 0 where
  pub lawful : Lawful ids b n h
  pub node : (i : ℕ) (s : NodeInner) → lookup i c.nodes ≡ some s → Matches h (log_view s)
  pub mail : AllFit h c.network

abbrev pub Chronicled : List ℕ → Ballots → ℕ → Cluster → Type 0
Chronicled ids b n c = (h : Histories) × Chronicle ids b n h c

AllFit-get_elem? :
    (h : Histories) (ms : List (ℕ × Message)) (k to : ℕ) (m : Message)
    → AllFit h ms
    → get_elem? ms k ≡ some (to, m)
    → Fits h m
AllFit-get_elem? h [] k to m f e = absurd (ground arith)
AllFit-get_elem? h ((to', m') ∷ ms) zero to m (f, g) e =
    let p : m' ≡ m = ground arith in subst (Fits h) p f
AllFit-get_elem? h ((to', m') ∷ ms) (suc k) to m (f, g) e = AllFit-get_elem? h ms k to m g e

step-Crowned :
    {ids : List ℕ} {b : Ballots} {n : ℕ} {h : Histories} (s : NodeInner) (m : Message)
    → n < 18446744073709551616
    → Lawful ids b n h
    → mail_ok ids b n (s.id, m) ≡ true
    → Fits h m
    → Agrees ids b n (view s)
    → Matches h (log_view s)
    → Crowned ids b n s.id h (log_view (step s m))
unfolding step
step-Crowned s (request_vote r) l w k f a x =
    kept-Crowned w s.id _ (handle_request_vote-Matches s r x)
step-Crowned s (request_vote_response r) l w k f a x = handle_vote_response-Crowned w s r k a x
step-Crowned s (append_entries r) l w k f a x =
    kept-Crowned w s.id _ (handle_append_entries-Matches w s r l f x)
step-Crowned s (append_entries_response r) l w k f a x =
    kept-Crowned w s.id _ (handle_append_entries_response-Matches s r x)

advance-Matches :
    {h : Histories} (s : NodeInner) → Matches h (log_view s) → Matches h (log_view (advance s))
advance-Matches s m = record {
  told = m.told;
  indices = m.indices;
  leads = m.leads;
  runs = m.runs;
  future = m.future;
  mail = refl;
}

module _ {ids : List ℕ} {b : Ballots} {n : ℕ} {h : Histories} where
  -- One node moves.
  replaced-Chronicle :
      (n' : ℕ) (c : Cluster) (i : ℕ) (t : NodeInner)
      → ((j : ℕ) (s : NodeInner) → lookup j c.nodes ≡ some s → s.id ≡ j)
      → Chronicle ids b n h c
      → Crowned ids b n' i h (log_view t)
      → Chronicled ids b n' (record c { nodes = insert i t c.nodes })
  replaced-Chronicle n' c i t own y (h', x, w, m) = (
    h',
    record {
      lawful = w;
      node = λ j s f. elim (Bool-cases (j == i)) [
        | inl p ↦
            let g : t ≡ s = ground (arith, lookup-insert i j t c.nodes) in
            subst (λ s. Matches h' (log_view s)) g m
        | inr p ↦
            let f' : lookup j c.nodes ≡ some s = ground (arith, lookup-insert i j t c.nodes) in
            let q = own j s f' in
            Matches-Evolves x (log_view s) (λ e. absurd (ground arith)) (y.node j s f')
      ];
      mail = AllFit-Evolves x c.network y.mail;
    },
  )

  later-Chronicle : (c : Cluster) → Chronicle ids b n h c → Chronicled ids b (n + 1) c
  later-Chronicle c y = (
    h,
    record {
      lawful = Lawful-later (λ t u c p. p) (omega arith) y.lawful;
      node = y.node;
      mail = y.mail;
    },
  )

  later-Crowned : (i : ℕ) (v : LogView) → Crowned ids b n i h v → Crowned ids b (n + 1) i h v
  later-Crowned i v (h', x, w, m) = (h', x, Lawful-later (λ t u c p. p) (omega arith) w, m)

  at_node-Chronicle :
      (c : Cluster) (i : ℕ) (f : NodeInner → NodeInner)
      → Sound ids b n c
      → Chronicle ids b n h c
      → ((s : NodeInner)
          → s.id ≡ i
          → Agrees ids b n (view s)
          → Matches h (log_view s)
          → Crowned ids b (n + 1) s.id h (log_view (f s)))
      → Chronicled ids b (n + 1) (at_node c i f)
  unfolding at_node
  at_node-Chronicle c i f z y k = elim (Option-cases (lookup i c.nodes)) [
    | inl e ↦ rw (e, at_node) (later-Chronicle c y)
    | inr (s, e) ↦
        let (p, a) = z.node i s e in
        rw (e, at_node)
          (replaced-Chronicle (n + 1) c i (f s) (λ j s e. (z.node j s e).0) y
            (subst (λ i. Crowned ids b (n + 1) i h (log_view (f s))) p (k s p a (y.node i s e))))
  ]

  deliver-Chronicle :
      (c : Cluster) (k : ℕ)
      → n < 18446744073709551616
      → Sound ids b n c
      → Chronicle ids b n h c
      → Chronicled ids b (n + 1) (deliver c k)
  unfolding deliver
  deliver-Chronicle c k l z y = elim (Option-cases (get_elem? c.network k)) [
    | inl e ↦ rw (e, deliver) (later-Chronicle c y)
    | inr ((to, m), e) ↦
        let ok = all-get_elem? (mail_ok ids b n) c.network k (to, m) z.mail e in
        let fits = AllFit-get_elem? h c.network k to m y.mail e in
        rw (e, deliver)
          (at_node-Chronicle c to (λ s. step s m) z y
            (λ s p a x. later-Crowned s.id (log_view (step s m)) (
              step-Crowned s m l y.lawful (subst (λ i. mail_ok ids b n (i, m) ≡ true) (sym p) ok)
                fits a x)))
  ]

  send_ready-Chronicle :
      (c : Cluster) (i : ℕ)
      → Sound ids b n c
      → Chronicle ids b n h c
      → Chronicled ids b (n + 1) (send_ready c i)
  unfolding send_ready
  send_ready-Chronicle c i z y = elim (Option-cases (lookup i c.nodes)) [
    | inl e ↦ rw (e, send_ready) (later-Chronicle c y)
    | inr (s, e) ↦
        let x = y.node i s e in
        let sent : Cluster = record c { network = c.network ++ s.pending_messages } in
        let told : Chronicle ids b n h sent = record {
          lawful = y.lawful;
          node = y.node;
          mail = AllFit-append h c.network s.pending_messages y.mail x.mail;
        } in
        rw (e, send_ready)
          (replaced-Chronicle (n + 1) sent i (advance s) (λ j s e. (z.node j s e).0) told
            (later-Crowned i _ (kept-Crowned y.lawful i _ (advance-Matches s x))))
  ]

  pub act-Chronicle :
      (c : Cluster) (a : Action)
      → n + 1 < 18446744073709551616
      → Sound ids b n c
      → Chronicle ids b n h c
      → Chronicled ids b (n + 1) (act c a)
  unfolding act
  act-Chronicle c (ticks i) l z y = at_node-Chronicle c i tick z y (λ s p a x.
      let m = a.bound in
      later-Crowned s.id _ (kept-Crowned y.lawful s.id _ (tick-Matches s (omega arith) x)))
  act-Chronicle c (proposes i x) l z y =
      at_node-Chronicle c i (λ s. (propose s x).0) z y (λ s p a m. propose-Crowned y.lawful s x m)
  act-Chronicle c (sends i) l z y = send_ready-Chronicle c i z y
  act-Chronicle c (delivers k) l z y = deliver-Chronicle c k (omega arith) z y
