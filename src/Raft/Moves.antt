-- ===== src/Raft/Moves.antt =====
-- Every operation of a Raft node (tools/vf-evolve/tasks/raft_consensus/initial.rs) agrees with the
-- ballots, whatever it does to the log.
use verified_concurrent.Base.{
  ℕ, ◌+◌, ◌≤◌, ◌<◌, ◌≡◌, refl, sym, subst, Bool, true, false, ◌||◌, not, List, [], ◌∷◌, ◌++◌, arith,
  ◌==◌, leb, ltb, length, Bool-cases, inl, inr,
}
use verified_concurrent.Base.Maps.{insert}
use verified_concurrent.Raft.State.{
  follower, Message, request_vote, request_vote_response, append_entries, append_entries_response,
  AppendEntries, AppendResponse, NodeInner, inc_word,
}
use verified_concurrent.Raft.Sending.{tick_leader, tick_other, tick, propose_leader, propose}
use verified_concurrent.Raft.Handlers.{
  is_leader, step_down, append_log, respond, follow_commit, log_consistent, follow,
  handle_append_entries, try_advance_commit, count_match, handle_append_entries_response, step,
}
use verified_concurrent.Raft.Ballots.{
  Ballots, view, mail_ok, Agrees, Extends-refl, later-Agrees, sent-Agrees, stepped-Agrees,
  follower-Agrees,
}
use verified_concurrent.Raft.Votes.{
  Moved, all-one, handle_request_vote-Moved, start_election-Moved, send_heartbeats-Agrees,
  handle_vote_response-Agrees,
}
use verified_concurrent.Raft.Frames.{
  state-cases, view-follow_commit, view-try_advance_commit, handle_vote_response-id,
  handle_append_entries-id, handle_append_entries_response-id, tick_leader-id,
}

module _ {ids : List ℕ} {b : Ballots} {n : ℕ} where
  -- Agreement depends on the view alone.
  same-Agrees :
      (s t : NodeInner) → view t ≡ view s → Agrees ids b n (view s) → Agrees ids b n (view t)
  same-Agrees s t e h = subst (Agrees ids b n) (sym e) h

  respond-Agrees :
      (s : NodeInner) (to m : ℕ) (success : Bool)
      → Agrees ids b n (view s)
      → Agrees ids b n (view (respond s to success m))
  respond-Agrees s to m success h =
      let l = h.bound in sent-Agrees h _ (all-one (mail_ok ids b n) _ (ground arith))

  follow-Agrees :
      (s : NodeInner) (a : AppendEntries)
      → Agrees ids b n (view s)
      → Agrees ids b n (view (follow s a))
  unfolding follow
  follow-Agrees s a h =
      elim (Bool-cases (not (log_consistent s.log a.prev_log_index a.prev_log_term))) [
        | inl e ↦ rw e (respond-Agrees s a.leader_id 0 false h)
        | inr e ↦
            let t : NodeInner = record s { log = append_log s.log a.entries } in
            rw e (
              respond-Agrees (follow_commit t a) a.leader_id (length (follow_commit t a).log) true
                (same-Agrees t (follow_commit t a) (view-follow_commit t a) h))
      ]

  handle_append_entries-Agrees :
      (s : NodeInner) (a : AppendEntries)
      → a.term ≤ n
      → Agrees ids b n (view s)
      → Agrees ids b n (view (handle_append_entries s a))
  unfolding handle_append_entries
  handle_append_entries-Agrees s a l h = elim (Bool-cases (ltb s.current_term a.term)) [
    | inl e ↦
        let low : ltb a.term a.term ≡ false = ground arith in
        rw (e, low)
          (follow-Agrees (record (step_down s a.term) { election_elapsed = 0 }) a
            (stepped-Agrees h a.term (ground arith) l))
    | inr e ↦ elim (Bool-cases (ltb a.term s.current_term)) [
      | inl f ↦ rw (e, f) (respond-Agrees s a.leader_id 0 false h)
      | inr f ↦
          rw (e, f)
            (follow-Agrees (record s { state = follower; election_elapsed = 0 }) a
              (follower-Agrees h))
    ]
  ]

  count_match-Agrees :
      (s : NodeInner) (r : AppendResponse)
      → Agrees ids b n (view s)
      → Agrees ids b n (view (count_match s r))
  unfolding count_match
  count_match-Agrees s r h = elim (Bool-cases r.success) [
    | inl e ↦
        let t : NodeInner = record s {
          next_index = insert r.follower_id (inc_word r.match_index) s.next_index;
          match_index = insert r.follower_id r.match_index s.match_index;
        } in
        rw e (same-Agrees t (try_advance_commit t) (view-try_advance_commit t) h)
    | inr e ↦ rw e h
  ]

  handle_append_entries_response-Agrees :
      (s : NodeInner) (r : AppendResponse)
      → r.term ≤ n
      → Agrees ids b n (view s)
      → Agrees ids b n (view (handle_append_entries_response s r))
  unfolding handle_append_entries_response
  handle_append_entries_response-Agrees s r l h = elim (Bool-cases (ltb s.current_term r.term)) [
    | inl e ↦ rw e (stepped-Agrees h r.term (ground arith) l)
    | inr e ↦ elim (Bool-cases (not (is_leader s.state) || not (r.term == s.current_term))) [
      | inl f ↦ rw (e, f) h
      | inr f ↦ rw (e, f) (count_match-Agrees s r h)
    ]
  ]

  -- The ballots stay as they are.
  unmoved : (s t : NodeInner) → Agrees ids b n (view t) → t.id ≡ s.id → Moved ids b n s.id (view t)
  unmoved s t h e = (b, Extends-refl b s.id, h, e)

  pub step-Moved :
      (s : NodeInner) (m : Message)
      → mail_ok ids b n (s.id, m) ≡ true
      → Agrees ids b n (view s)
      → Moved ids b n s.id (view (step s m))
  unfolding step
  step-Moved s (request_vote r) k h = handle_request_vote-Moved s r (ground arith) h
  step-Moved s (request_vote_response r) k h =
      (b, Extends-refl b s.id, handle_vote_response-Agrees s r k h, handle_vote_response-id s r)
  step-Moved s (append_entries a) k h = (
    b,
    Extends-refl b s.id,
    handle_append_entries-Agrees s a (ground arith) h,
    handle_append_entries-id s a,
  )
  step-Moved s (append_entries_response r) k h = (
    b,
    Extends-refl b s.id,
    handle_append_entries_response-Agrees s r (ground arith) h,
    handle_append_entries_response-id s r,
  )

  tick_leader-Agrees :
      (s : NodeInner) → Agrees ids b n (view s) → Agrees ids b n (view (tick_leader s))
  unfolding tick_leader
  tick_leader-Agrees s h =
      elim (Bool-cases (leb s.heartbeat_interval (inc_word s.heartbeat_elapsed))) [
        | inl e ↦ rw e (send_heartbeats-Agrees (record s { heartbeat_elapsed = 0 }) h)
        | inr e ↦ rw e h
      ]

  tick_other-Moved :
      (s : NodeInner)
      → n + 1 < 18446744073709551616
      → Agrees ids b n (view s)
      → Moved ids b (n + 1) s.id (view (tick_other s))
  unfolding tick_other
  tick_other-Moved s l h =
      elim (Bool-cases (leb s.election_timeout (inc_word s.election_elapsed))) [
        | inl e ↦
            rw e (
              start_election-Moved (record s { election_elapsed = inc_word s.election_elapsed }) l
                h)
        | inr e ↦ rw e (b, Extends-refl b s.id, later-Agrees h (n + 1) (omega arith), refl)
      ]

  pub tick-Moved :
      (s : NodeInner)
      → n + 1 < 18446744073709551616
      → Agrees ids b n (view s)
      → Moved ids b (n + 1) s.id (view (tick s))
  unfolding tick
  tick-Moved s l h = elim (state-cases s.state) [
    | inl e ↦
        rw (e, tick)
          (
            b,
            Extends-refl b s.id,
            later-Agrees (tick_leader-Agrees s h) (n + 1) (omega arith),
            tick_leader-id s,
          )
    | inr (inl e) ↦ rw (e, tick) (tick_other-Moved s l h)
    | inr (inr e) ↦ rw (e, tick) (tick_other-Moved s l h)
  ]

  pub propose-Agrees :
      (s : NodeInner) (payload : List ℕ)
      → Agrees ids b n (view s)
      → Agrees ids b n (view (propose s payload).0)
  unfolding propose propose_leader
  propose-Agrees s payload h = elim (state-cases s.state) [
    | inl e ↦
        rw (e, propose)
          (send_heartbeats-Agrees
            (record s {
              log =
                  s.log
                  ++ record { index = length s.log + 1; term = s.current_term; payload = payload }
                    ∷ [];
              match_index = insert s.id (length s.log + 1) s.match_index;
            })
            h)
    | inr (inl e) ↦ rw (e, propose) h
    | inr (inr e) ↦ rw (e, propose) h
  ]
