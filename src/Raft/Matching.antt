-- ===== src/Raft/Matching.antt =====
-- Every operation of a Raft node (tools/vf-evolve/tasks/raft_consensus/initial.rs) keeps the logs of all
-- terms: messages, the clock and proposals.
use verified_concurrent.Base.{
  ℕ, zero, suc, ◌+◌, ◌-◌, ◌<◌, ◌≡◌, refl, sym, subst, true, false, ◌||◌, not, List, ◌++◌, arith,
  ◌==◌, leb, ltb, length, last, get_elem?, Bool-cases, Option-cases, inl, inr,
}
use verified_concurrent.Base.Maps.{insert}
use verified_concurrent.Raft.State.{
  follower, candidate, LogEntry, RequestVote, AppendEntries, AppendResponse, NodeInner, inc_word,
}
use verified_concurrent.Raft.Sending.{vote_request, start_election, tick_leader, tick_other, tick}
use verified_concurrent.Raft.Handlers.{
  is_leader, step_down, adopt_term, grants, answer_vote, handle_request_vote, delivered, apply_loop,
  apply_committed, append_log, entry_index, min_of, follow_commit, log_consistent, follow,
  handle_append_entries, find_commit, try_advance_commit, count_match,
  handle_append_entries_response,
}
use verified_concurrent.Raft.Ballots.{Ballots}
use verified_concurrent.Raft.Frames.{state-cases}
use verified_concurrent.Raft.Logs.{indexed}
use verified_concurrent.Raft.Histories.{Histories, IsTold, Sent, LogView, log_view, Matches, Lawful}
use verified_concurrent.Raft.Reigns.{AllFit-map, mailed-Matches, send_heartbeats-Matches}
use verified_concurrent.Raft.Replication.{received-IsTold}

log_view-apply_loop : (k : ℕ) (s : NodeInner) → log_view (apply_loop k s) ≡ log_view s
unfolding apply_loop
log_view-apply_loop zero s = refl
log_view-apply_loop (suc k) s = elim (Bool-cases (ltb s.last_applied s.commit_index)) [
  | inl e ↦ rw e (
      log_view-apply_loop k (record s {
        last_applied = s.last_applied + 1;
        pending_committed = s.pending_committed ++ delivered (get_elem? s.log s.last_applied);
      }))
  | inr e ↦ rw e refl
]

log_view-follow_commit :
    (s : NodeInner) (a : AppendEntries) → log_view (follow_commit s a) ≡ log_view s
unfolding follow_commit apply_committed
log_view-follow_commit s a = elim (Bool-cases (ltb s.commit_index a.leader_commit)) [
  | inl e ↦
      let c = min_of a.leader_commit (entry_index (length s.log) (last a.entries)) in
      rw e (log_view-apply_loop (c - s.last_applied) (record s { commit_index = c }))
  | inr e ↦ rw e refl
]

log_view-try_advance_commit : (s : NodeInner) → log_view (try_advance_commit s) ≡ log_view s
unfolding try_advance_commit apply_committed
log_view-try_advance_commit s = elim (Option-cases (find_commit s (length s.log))) [
  | inl e ↦ rw (e, try_advance_commit) refl
  | inr (n, e) ↦
      rw (e, try_advance_commit)
        (log_view-apply_loop (n - s.last_applied) (record s { commit_index = n }))
]

module _ {h : Histories} where
  pub stepped-Matches :
      {v : LogView} (t : ℕ)
      → v.term < t
      → Matches h v
      → Matches h (record v { term = t; state = follower })
  stepped-Matches t l m = record {
    told = m.told;
    indices = m.indices;
    leads = λ x. absurd (ground arith);
    runs = λ x. absurd (ground arith);
    future = λ u k. m.future u (omega arith);
    mail = m.mail;
  }

  follower-Matches : {v : LogView} → Matches h v → Matches h (record v { state = follower })
  follower-Matches m = record {
    told = m.told;
    indices = m.indices;
    leads = λ x. absurd (ground arith);
    runs = λ x. absurd (ground arith);
    future = m.future;
    mail = m.mail;
  }

  logged-Matches :
      {v : LogView} (l : List LogEntry)
      → is_leader v.state ≡ false
      → IsTold h l × (indexed 0 l ≡ true)
      → Matches h v
      → Matches h (record v { log = l })
  logged-Matches l f (p, q) m = record {
    told = p;
    indices = q;
    leads = λ x. absurd (ground arith);
    runs = m.runs;
    future = m.future;
    mail = m.mail;
  }

  adopt_term-Matches :
      (s : NodeInner) (t : ℕ) → Matches h (log_view s) → Matches h (log_view (adopt_term s t))
  adopt_term-Matches s t m = elim (Bool-cases (ltb s.current_term t)) [
    | inl e ↦ rw e (stepped-Matches t (ground arith) m)
    | inr e ↦ rw e m
  ]

  answer_vote-Matches :
      (s : NodeInner) (r : RequestVote)
      → Matches h (log_view s)
      → Matches h (log_view (answer_vote s r))
  unfolding answer_vote
  answer_vote-Matches s r m = elim (Bool-cases (grants s r)) [
    | inl e ↦ rw e (mailed-Matches _ m (refl, refl))
    | inr e ↦ rw e (mailed-Matches _ m (refl, refl))
  ]

  pub handle_request_vote-Matches :
      (s : NodeInner) (r : RequestVote)
      → Matches h (log_view s)
      → Matches h (log_view (handle_request_vote s r))
  unfolding handle_request_vote
  handle_request_vote-Matches s r m =
      answer_vote-Matches (adopt_term s r.term) r (adopt_term-Matches s r.term m)

  count_match-Matches :
      (s : NodeInner) (r : AppendResponse)
      → Matches h (log_view s)
      → Matches h (log_view (count_match s r))
  unfolding count_match
  count_match-Matches s r m = elim (Bool-cases r.success) [
    | inl e ↦
        let t : NodeInner = record s {
          next_index = insert r.follower_id (inc_word r.match_index) s.next_index;
          match_index = insert r.follower_id r.match_index s.match_index;
        } in
        rw e (subst (Matches h) (sym (log_view-try_advance_commit t)) m)
    | inr e ↦ rw e m
  ]

  pub handle_append_entries_response-Matches :
      (s : NodeInner) (r : AppendResponse)
      → Matches h (log_view s)
      → Matches h (log_view (handle_append_entries_response s r))
  unfolding handle_append_entries_response
  handle_append_entries_response-Matches s r m = elim (Bool-cases (ltb s.current_term r.term)) [
    | inl e ↦ rw e (stepped-Matches r.term (ground arith) m)
    | inr e ↦ elim (Bool-cases (not (is_leader s.state) || not (r.term == s.current_term))) [
      | inl f ↦ rw (e, f) m
      | inr f ↦ rw (e, f) (count_match-Matches s r m)
    ]
  ]

  start_election-Matches :
      (s : NodeInner)
      → s.current_term + 1 < 18446744073709551616
      → Matches h (log_view s)
      → Matches h (log_view (start_election s))
  unfolding start_election vote_request
  start_election-Matches s l m =
      let e : inc_word s.current_term ≡ s.current_term + 1 = omega arith in
      let t : Matches h (record (log_view s) { term = s.current_term + 1; state = candidate }) =
        record {
          told = m.told;
          indices = m.indices;
          leads = λ x. absurd (ground arith);
          runs = λ x. (omega arith, m.future (s.current_term + 1) (omega arith));
          future = λ u k. m.future u (omega arith);
          mail = m.mail;
        } in
      rw e (mailed-Matches _ t (AllFit-map h _ s.peers (λ p. refl)))

  tick_leader-Matches :
      (s : NodeInner)
      → is_leader s.state ≡ true
      → Matches h (log_view s)
      → Matches h (log_view (tick_leader s))
  unfolding tick_leader
  tick_leader-Matches s l m =
      elim (Bool-cases (leb s.heartbeat_interval (inc_word s.heartbeat_elapsed))) [
        | inl e ↦ rw e (send_heartbeats-Matches h (record s { heartbeat_elapsed = 0 }) l m)
        | inr e ↦ rw e m
      ]

  tick_other-Matches :
      (s : NodeInner)
      → s.current_term + 1 < 18446744073709551616
      → Matches h (log_view s)
      → Matches h (log_view (tick_other s))
  unfolding tick_other
  tick_other-Matches s l m =
      elim (Bool-cases (leb s.election_timeout (inc_word s.election_elapsed))) [
        | inl e ↦ rw e (
            start_election-Matches (record s { election_elapsed = inc_word s.election_elapsed }) l
              m)
        | inr e ↦ rw e m
      ]

  pub tick-Matches :
      (s : NodeInner)
      → s.current_term + 1 < 18446744073709551616
      → Matches h (log_view s)
      → Matches h (log_view (tick s))
  unfolding tick
  tick-Matches s l m = elim (state-cases s.state) [
    | inl e ↦ rw (e, tick) (tick_leader-Matches s (ground arith) m)
    | inr (inl e) ↦ rw (e, tick) (tick_other-Matches s l m)
    | inr (inr e) ↦ rw (e, tick) (tick_other-Matches s l m)
  ]

module _ {ids : List ℕ} {b : Ballots} {n : ℕ} {h : Histories} (lawful : Lawful ids b n h) where
  follow-Matches :
      (s : NodeInner) (a : AppendEntries)
      → n < 18446744073709551616
      → Sent h a
      → is_leader s.state ≡ false
      → Matches h (log_view s)
      → Matches h (log_view (follow s a))
  unfolding follow
  follow-Matches s a l x f m =
      elim (Bool-cases (not (log_consistent s.log a.prev_log_index a.prev_log_term))) [
        | inl e ↦ rw e (mailed-Matches _ m (refl, refl))
        | inr e ↦
            let u : NodeInner = record s { log = append_log s.log a.entries } in
            let q = log_view-follow_commit u a in
            rw e (
              mailed-Matches _
                (subst (Matches h) (sym q) (
                  logged-Matches u.log f
                    (received-IsTold h lawful s.log a m.told x l m.indices (ground arith)) m))
                (refl, refl))
      ]

  pub handle_append_entries-Matches :
      (s : NodeInner) (a : AppendEntries)
      → n < 18446744073709551616
      → Sent h a
      → Matches h (log_view s)
      → Matches h (log_view (handle_append_entries s a))
  unfolding handle_append_entries
  handle_append_entries-Matches s a l x m = elim (Bool-cases (ltb s.current_term a.term)) [
    | inl e ↦
        let low : ltb a.term a.term ≡ false = ground arith in
        rw (e, low)
          (follow-Matches (record (step_down s a.term) { election_elapsed = 0 }) a l x refl
            (stepped-Matches a.term (ground arith) m))
    | inr e ↦ elim (Bool-cases (ltb a.term s.current_term)) [
      | inl f ↦ rw (e, f) (mailed-Matches _ m (refl, refl))
      | inr f ↦
          rw (e, f)
            (follow-Matches (record s { state = follower; election_elapsed = 0 }) a l x refl
              (follower-Matches m))
    ]
  ]
