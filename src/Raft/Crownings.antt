-- ===== src/Raft/Crownings.antt =====
-- The steps of a Raft node (tools/vf-evolve/tasks/raft_consensus/initial.rs) that add to the logs of the
-- leaders: the vote that makes a leader, and a proposal.
use verified_concurrent.Base.{
  ℕ, zero, suc, ◌+◌, ◌-◌, ◌≤◌, ◌<◌, ◌≡◌, refl, ap, sym, subst, ◌∙◌, true, false, ◌&&◌, ◌||◌, not,
  none, some, List, [], ◌∷◌, ◌++◌, arith, ◌==◌, ==_refl, leb, ltb, if◌then◌else◌, length,
  length-append, contains, get_elem?, same_option→eq, Bool-cases, Option-cases, inl, inr,
}
use verified_concurrent.Base.Maps.{insert}
use verified_concurrent.Raft.State.{
  NodeState, leader, LogEntry, request_vote_response, VoteResponse, NodeInner, quorum_size,
}
use verified_concurrent.Raft.Sending.{propose_leader, propose}
use verified_concurrent.Raft.Handlers.{
  is_candidate, elected, become_leader, count_vote, handle_vote_response,
}
use verified_concurrent.Raft.Ballots.{Ballots, View, view, is_follower, mail_ok, Agrees}
use verified_concurrent.Raft.Votes.{counted-Agrees}
use verified_concurrent.Raft.Frames.{state-cases}
use verified_concurrent.Raft.Logs.{indexed, indexed-append, get_elem?-append}
use verified_concurrent.Raft.Commits.{get_elem?-some}
use verified_concurrent.Raft.Histories.{
  Histories, crown, IsTold, LogView, log_view, Matches, Evolves, Evolves-refl, Majority,
  one_majority, Lawful,
}
use verified_concurrent.Raft.Reigns.{
  crown-Evolves, crown-Lawful, crown-Matches, crown-IsTold, get_elem?-pushed, get_elem?-length,
  send_heartbeats-Matches,
}
use verified_concurrent.Raft.Matching.{stepped-Matches}

-- What a step of a node leaves: further histories, which the node tells and matches.
abbrev pub Crowned : List ℕ → Ballots → ℕ → ℕ → Histories → LogView → Type 0
Crowned ids b n i h v = (h' : Histories) × Evolves i h h' × Lawful ids b n h' × Matches h' v

pub Lawful-later :
    {ids : List ℕ} {b b' : Ballots} {n n' : ℕ} {h : Histories}
    → ((t u c : ℕ) → b t u ≡ some c → b' t u ≡ some c)
    → n ≤ n'
    → Lawful ids b n h
    → Lawful ids b' n' h
Lawful-later p l w = record {
  origin = w.origin;
  empty = w.empty;
  told = w.told;
  bound = λ t k e f. let m = w.bound t k e f in omega arith;
  elected = λ t i f.
      let m = w.elected t i f in
      record {
        votes = m.votes;
        once = m.once;
        cast = λ u c. let (x, y) = m.cast u c in (p t u i x, y);
        many = m.many;
      };
}

leads_follower : (c : NodeState) → is_candidate c ≡ true → is_follower c ≡ false
leads_follower c e = ground arith

module _ {ids : List ℕ} {b : Ballots} {n : ℕ} {h : Histories} (lawful : Lawful ids b n h) where
  candidate-Majority :
      (v : View)
      → Agrees ids b n v
      → is_candidate v.state ≡ true
      → quorum_size v.size ≤ length v.votes
      → Majority ids b v.term v.id
  candidate-Majority v a c q =
      let f = leads_follower v.state c in
      record {
        votes = v.votes;
        once = a.once f;
        cast = a.votes f;
        many = (let e = a.size in omega arith);
      }

  told-bound :
      (l : List LogEntry) → IsTold h l → (k : ℕ) (e : LogEntry) → get_elem? l k ≡ some e → k < n
  told-bound l p k e f = lawful.bound e.term k e (p k e f k e (omega arith) f)

  length-told : (l : List LogEntry) → IsTold h l → length l ≤ n
  length-told l p = elim (Bool-cases (length l == 0)) [
    | inl e ↦ ground arith
    | inr e ↦
        let (x, f) = get_elem?-some (length l - 1) l (ground arith) in
        let m = told-bound l p (length l - 1) x f in omega arith
  ]

  become_leader-Crowned :
      (s : NodeInner)
      → Agrees ids b n (view s)
      → is_candidate s.state ≡ true
      → quorum_size (length s.peers + 1) ≤ length s.votes_received
      → Matches h (log_view s)
      → Crowned ids b n s.id h (log_view (become_leader s))
  unfolding become_leader elected
  become_leader-Crowned s a c q m =
      let t = s.current_term in
      let won = candidate-Majority (view s) a c q in
      let (z, new) = m.runs c in
      let only : (j : ℕ) → h.ruler t ≡ some j → j ≡ s.id =
        λ j r. one_majority ids b t j s.id (lawful.elected t j r) won in
      let vacant : h.ruler t ≡ none = elim (Option-cases (h.ruler t)) [
        | inl e ↦ e
        | inr (j, e) ↦ absurd (new (subst (λ i. h.ruler t ≡ some i) (only j e) e))
      ] in
      let longer : (k : ℕ) (e : LogEntry)
          → get_elem? (h.log t) k ≡ some e
          → get_elem? s.log k ≡ some e =
        λ k e f. let x = lawful.empty t vacant in absurd (ground arith) in
      let told = crown-IsTold h t s.id s.log (λ k e f p j x l g. m.told k e f j x l g) in
      (
        crown h t s.id s.log,
        crown-Evolves t s.id s.log only longer,
        crown-Lawful t s.id s.log only longer z told (told-bound s.log m.told) won lawful,
        send_heartbeats-Matches (crown h t s.id s.log) (elected s) refl
            (crown-Matches t s.id s.log only longer (log_view s) refl refl told m.indices m),
      )

  pub kept-Crowned : (i : ℕ) (v : LogView) → Matches h v → Crowned ids b n i h v
  kept-Crowned i v m = (h, Evolves-refl i h, lawful, m)

  received-Crowned :
      (s : NodeInner)
      → Agrees ids b n (view s)
      → is_candidate s.state ≡ true
      → Matches h (log_view s)
      → Crowned ids b n s.id h (
          log_view (
            if leb (quorum_size (length s.peers + 1)) (length s.votes_received)
            then become_leader s
            else s))
  received-Crowned s a c m =
      elim (Bool-cases (leb (quorum_size (length s.peers + 1)) (length s.votes_received))) [
        | inl e ↦ rw e (become_leader-Crowned s a c (ground arith) m)
        | inr e ↦ rw e (kept-Crowned s.id (log_view s) m)
      ]

  count_vote-Crowned :
      (s : NodeInner) (r : VoteResponse)
      → mail_ok ids b n (s.id, request_vote_response r) ≡ true
      → is_candidate s.state ≡ true
      → r.term ≡ s.current_term
      → Agrees ids b n (view s)
      → Matches h (log_view s)
      → Crowned ids b n s.id h (log_view (count_vote s r))
  unfolding count_vote
  count_vote-Crowned s r k c t a m =
      elim (Bool-cases (r.vote_granted && not (contains r.voter_id s.votes_received))) [
        | inl e ↦
            let more =
              counted-Agrees r.voter_id a (ground arith)
                (ground (arith, same_option→eq (b r.term r.voter_id) (some s.id))) (ground arith)
                (ground arith) in
            rw e (
              received-Crowned (record s { votes_received = s.votes_received ++ r.voter_id ∷ [] })
                more c m)
        | inr e ↦ rw e (received-Crowned s a c m)
      ]

  pub handle_vote_response-Crowned :
      (s : NodeInner) (r : VoteResponse)
      → mail_ok ids b n (s.id, request_vote_response r) ≡ true
      → Agrees ids b n (view s)
      → Matches h (log_view s)
      → Crowned ids b n s.id h (log_view (handle_vote_response s r))
  unfolding handle_vote_response
  handle_vote_response-Crowned s r k a m = elim (Bool-cases (ltb s.current_term r.term)) [
    | inl e ↦ rw e (kept-Crowned s.id _ (stepped-Matches r.term (ground arith) m))
    | inr e ↦ elim (Bool-cases (not (is_candidate s.state) || not (r.term == s.current_term))) [
      | inl f ↦ rw (e, f) (kept-Crowned s.id (log_view s) m)
      | inr f ↦ rw (e, f) (count_vote-Crowned s r k (ground arith) (ground arith) a m)
    ]
  ]

  ruled_positive : (t i : ℕ) → h.ruler t ≡ some i → 0 < t
  ruled_positive zero i r = let o = lawful.origin in absurd (ground arith)
  ruled_positive (suc t) i r = omega arith

  propose_leader-Crowned :
      (s : NodeInner) (payload : List ℕ)
      → s.state ≡ leader
      → Matches h (log_view s)
      → Crowned ids b (n + 1) s.id h (log_view (propose_leader s payload))
  unfolding propose_leader indexed
  propose_leader-Crowned s payload c m =
      let t = s.current_term in
      let entry : LogEntry = record { index = length s.log + 1; term = t; payload = payload } in
      let log = s.log ++ entry ∷ [] in
      let (r, same) = m.leads (ground arith) in
      let only : (j : ℕ) → h.ruler t ≡ some j → j ≡ s.id = λ j e. ground arith in
      let longer : (k : ℕ) (e : LogEntry)
          → get_elem? (h.log t) k ≡ some e
          → get_elem? log k ≡ some e =
        λ k e f.
          let g = subst (λ l. get_elem? l k ≡ some e) same f in
          get_elem?-append k s.log (entry ∷ []) (get_elem?-length s.log k e g) ∙ g in
      let told : IsTold (crown h t s.id log) log = crown-IsTold h t s.id log (λ k e f p j x l g.
        elim (get_elem?-pushed s.log entry k e f) [
          | inl q ↦ m.told k e q j x l (
              sym (
                get_elem?-append j s.log (entry ∷ [])
                  (let y = get_elem?-length s.log k e q in omega arith))
              ∙ g)
          | inr (y, q) ↦ absurd (ground (arith, ==_refl t, ap (λ e. e.term) q))
        ]) in
      let short : (k : ℕ) (e : LogEntry) → get_elem? log k ≡ some e → k < n + 1 = λ k e f.
        let x = get_elem?-length log k e f in
        let y = length-append s.log (entry ∷ []) in
        let z = length-told s.log m.told in ground arith in
      let indices : indexed 0 log ≡ true =
        ground
          (arith, indexed-append 0 s.log (entry ∷ []), m.indices, ==_refl (length s.log + 1)) in
      let z : 0 < t = ruled_positive t s.id r in
      let u : NodeInner = record s {
        log = log;
        match_index = insert s.id (length s.log + 1) s.match_index;
      } in
      let crowned = crown-Matches t s.id log only longer (log_view s) refl refl told indices m in
      (
        crown h t s.id log,
        crown-Evolves t s.id log only longer,
        crown-Lawful t s.id log only longer z told short (lawful.elected t s.id r)
            (Lawful-later (λ t u c p. p) (omega arith) lawful),
        send_heartbeats-Matches (crown h t s.id log) u (ground arith) (
            subst (λ c. Matches (crown h t s.id log) (record (log_view s) { state = c; log = log }))
              (sym c) crowned),
      )

  pub propose-Crowned :
      (s : NodeInner) (payload : List ℕ)
      → Matches h (log_view s)
      → Crowned ids b (n + 1) s.id h (log_view (propose s payload).0)
  unfolding propose
  propose-Crowned s payload m = elim (state-cases s.state) [
    | inl e ↦ rw (e, propose) (propose_leader-Crowned s payload e m)
    | inr (inl e) ↦ rw (e, propose) (later-Crowned s m)
    | inr (inr e) ↦ rw (e, propose) (later-Crowned s m)
  ]
    where
      later-Crowned :
          (s : NodeInner) → Matches h (log_view s) → Crowned ids b (n + 1) s.id h (log_view s)
      later-Crowned s m =
          (h, Evolves-refl s.id h, Lawful-later (λ t u c p. p) (omega arith) lawful, m)
