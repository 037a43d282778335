-- ===== src/Raft/Steps.antt =====
-- What every step of a Raft node (tools/vf-evolve/tasks/raft_consensus/initial.rs) keeps of its term,
-- its vote and its log.
use verified_concurrent.Base.{
  ℕ, ◌-◌, ◌≤◌, ◌≡◌, refl, ap, true, some, arith, length, same_option→eq, Option-cases, inl, inr,
}
use verified_concurrent.Base.Maps.{insert}
use verified_concurrent.Raft.State.{
  follower, Message, request_vote, request_vote_response, append_entries, append_entries_response,
  RequestVote, VoteResponse, AppendEntries, AppendResponse, NodeInner, inc_word,
}
use verified_concurrent.Raft.Sending.{send_heartbeats}
use verified_concurrent.Raft.Handlers.{
  is_leader, adopt_term, grants, answer_vote, handle_request_vote, elected, become_leader,
  count_vote, handle_vote_response, append_log, apply_committed, find_commit, follow,
  adopt_leader_term, handle_append_entries, try_advance_commit, count_match,
  handle_append_entries_response, step,
}
use verified_concurrent.Raft.Frames.{view-follow_commit, view-try_advance_commit}
use verified_concurrent.Raft.Follow.{apply_loop-log}

-- The term has not fallen, and in the same term the vote has stayed once it was cast.
pub record Durable (s t : NodeInner) : Type 0 where
  pub term : s.current_term ≤ t.current_term
  pub vote : (c : ℕ) → s.current_term ≡ t.current_term → s.voted_for ≡ some c → t.voted_for ≡ some c

grants-vote :
    (s : NodeInner) (r : RequestVote) (c : ℕ)
    → grants s r ≡ true
    → s.voted_for ≡ some c
    → r.candidate_id ≡ c
unfolding grants
grants-vote s r c h e = ground (arith, same_option→eq s.voted_for (some r.candidate_id))

handle_request_vote-Durable :
    (s : NodeInner) (r : RequestVote) → Durable s (handle_request_vote s r)
unfolding handle_request_vote answer_vote
handle_request_vote-Durable s r = record {
  term = ground arith;
  vote = λ c e f. ground (arith, grants-vote (adopt_term s r.term) r c);
}

handle_vote_response-Durable :
    (s : NodeInner) (r : VoteResponse) → Durable s (handle_vote_response s r)
unfolding handle_vote_response count_vote become_leader elected send_heartbeats
handle_vote_response-Durable s r = record { term = ground arith; vote = λ c e f. ground arith }

follow-kept :
    (s : NodeInner) (a : AppendEntries)
    → ((follow s a).current_term ≡ s.current_term)
      × ((follow s a).voted_for ≡ s.voted_for)
      × ((follow s a).state ≡ s.state)
unfolding follow
follow-kept s a =
    let v = view-follow_commit (record s { log = append_log s.log a.entries }) a in
    (
      ground (arith, ap (λ v. v.term) v),
      ground (arith, ap (λ v. v.voted) v),
      ground (arith, ap (λ v. v.state) v),
    )

handle_append_entries-Durable :
    (s : NodeInner) (a : AppendEntries) → Durable s (handle_append_entries s a)
unfolding handle_append_entries
handle_append_entries-Durable s a =
    let (p, q, r) =
      follow-kept (record (adopt_leader_term s a.term) { state = follower; election_elapsed = 0 })
        a in
    record { term = ground (arith, p, q); vote = λ c e f. ground (arith, p, q) }

count_match-kept :
    (s : NodeInner) (r : AppendResponse)
    → ((count_match s r).current_term ≡ s.current_term)
      × ((count_match s r).voted_for ≡ s.voted_for)
unfolding count_match
count_match-kept s r =
    let v = view-try_advance_commit (record s {
      next_index = insert r.follower_id (inc_word r.match_index) s.next_index;
      match_index = insert r.follower_id r.match_index s.match_index;
    }) in
    (ground (arith, ap (λ v. v.term) v), ground (arith, ap (λ v. v.voted) v))

handle_append_entries_response-Durable :
    (s : NodeInner) (r : AppendResponse) → Durable s (handle_append_entries_response s r)
unfolding handle_append_entries_response
handle_append_entries_response-Durable s r =
    let (p, q) = count_match-kept s r in
    record { term = ground (arith, p, q); vote = λ c e f. ground (arith, p, q) }

-- Whatever message a node receives, its term does not fall, and a vote that it has cast in a term
-- stays its vote for as long as the node is in that term.
pub step-Durable : (s : NodeInner) (m : Message) → Durable s (step s m)
unfolding step
step-Durable s (request_vote r) = handle_request_vote-Durable s r
step-Durable s (request_vote_response r) = handle_vote_response-Durable s r
step-Durable s (append_entries a) = handle_append_entries-Durable s a
step-Durable s (append_entries_response r) = handle_append_entries_response-Durable s r

handle_request_vote-log : (s : NodeInner) (r : RequestVote) → (handle_request_vote s r).log ≡ s.log
unfolding handle_request_vote answer_vote
handle_request_vote-log s r = ground arith

handle_vote_response-log :
    (s : NodeInner) (r : VoteResponse) → (handle_vote_response s r).log ≡ s.log
unfolding handle_vote_response count_vote become_leader elected send_heartbeats
handle_vote_response-log s r = ground arith

try_advance_commit-log : (s : NodeInner) → (try_advance_commit s).log ≡ s.log
unfolding try_advance_commit apply_committed
try_advance_commit-log s = elim (Option-cases (find_commit s (length s.log))) [
  | inl e ↦ rw (e, try_advance_commit) refl
  | inr (n, e) ↦
      rw (e, try_advance_commit)
        (apply_loop-log (n - s.last_applied) (record s { commit_index = n }))
]

handle_append_entries_response-log :
    (s : NodeInner) (r : AppendResponse) → (handle_append_entries_response s r).log ≡ s.log
unfolding handle_append_entries_response count_match
handle_append_entries_response-log s r =
    let e = try_advance_commit-log (record s {
      next_index = insert r.follower_id (inc_word r.match_index) s.next_index;
      match_index = insert r.follower_id r.match_index s.match_index;
    }) in
    ground (arith, e)

handle_append_entries-leads :
    (s : NodeInner) (a : AppendEntries)
    → is_leader (handle_append_entries s a).state ≡ true
    → (handle_append_entries s a).log ≡ s.log
unfolding handle_append_entries
handle_append_entries-leads s a h =
    let (p, q, r) =
      follow-kept (record (adopt_leader_term s a.term) { state = follower; election_elapsed = 0 })
        a in
    ground (arith, r)

-- No message changes the log of a node that leads after it.
pub step-leader_log :
    (s : NodeInner) (m : Message) → is_leader (step s m).state ≡ true → (step s m).log ≡ s.log
unfolding step
step-leader_log s (request_vote r) h = handle_request_vote-log s r
step-leader_log s (request_vote_response r) h = handle_vote_response-log s r
step-leader_log s (append_entries a) h = handle_append_entries-leads s a h
step-leader_log s (append_entries_response r) h = handle_append_entries_response-log s r
