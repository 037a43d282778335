-- ===== src/Raft/Frames.antt =====
-- What the operations of a Raft node (tools/vf-evolve/tasks/raft_consensus/initial.rs) leave of what an
-- election reads, and of the identifier.
use verified_concurrent.Base.{
  ℕ, zero, suc, ◌+◌, ◌-◌, ◌≡◌, refl, ap, ◌⊎◌, List, ◌++◌, arith, ltb, length, get_elem?, last,
  Bool-cases, Option-cases, inl, inr,
}
use verified_concurrent.Base.Maps.{insert}
use verified_concurrent.Raft.State.{
  NodeState, follower, candidate, leader, VoteResponse, AppendEntries, AppendResponse, NodeInner,
  inc_word,
}
use verified_concurrent.Raft.Sending.{send_heartbeats, tick_leader, propose_leader, propose}
use verified_concurrent.Raft.Handlers.{
  handle_vote_response, count_vote, become_leader, elected, delivered, apply_loop, apply_committed,
  append_log, entry_index, min_of, follow_commit, follow, adopt_leader_term, handle_append_entries,
  find_commit, try_advance_commit, count_match, handle_append_entries_response,
}
use verified_concurrent.Raft.Ballots.{view}

pub state-cases : (x : NodeState) → (x ≡ leader) ⊎ ((x ≡ candidate) ⊎ (x ≡ follower))
state-cases leader = inl refl
state-cases candidate = inr (inl refl)
state-cases follower = inr (inr refl)

pub view-apply_loop : (k : ℕ) (s : NodeInner) → view (apply_loop k s) ≡ view s
unfolding apply_loop
view-apply_loop zero s = refl
view-apply_loop (suc k) s = elim (Bool-cases (ltb s.last_applied s.commit_index)) [
  | inl e ↦ rw e (
      view-apply_loop k (record s {
        last_applied = s.last_applied + 1;
        pending_committed = s.pending_committed ++ delivered (get_elem? s.log s.last_applied);
      }))
  | inr e ↦ rw e refl
]

pub view-apply_committed : (s : NodeInner) → view (apply_committed s) ≡ view s
unfolding apply_committed
view-apply_committed s = view-apply_loop (s.commit_index - s.last_applied) s

pub view-follow_commit : (s : NodeInner) (a : AppendEntries) → view (follow_commit s a) ≡ view s
unfolding follow_commit
view-follow_commit s a = elim (Bool-cases (ltb s.commit_index a.leader_commit)) [
  | inl e ↦ rw e (
      view-apply_committed (record s {
        commit_index = min_of a.leader_commit (entry_index (length s.log) (last a.entries));
      }))
  | inr e ↦ rw e refl
]

pub view-try_advance_commit : (s : NodeInner) → view (try_advance_commit s) ≡ view s
unfolding try_advance_commit
view-try_advance_commit s = elim (Option-cases (find_commit s (length s.log))) [
  | inl e ↦ rw (e, try_advance_commit) refl
  | inr (n, e) ↦ rw (e, try_advance_commit) (view-apply_committed (record s { commit_index = n }))
]

pub handle_vote_response-id :
    (s : NodeInner) (r : VoteResponse) → (handle_vote_response s r).id ≡ s.id
unfolding handle_vote_response count_vote become_leader elected send_heartbeats
handle_vote_response-id s r = ground arith

pub follow-id : (s : NodeInner) (a : AppendEntries) → (follow s a).id ≡ s.id
unfolding follow
follow-id s a =
    let e = view-follow_commit (record s { log = append_log s.log a.entries }) a in
    ground (arith, ap (λ v. v.id) e)

pub handle_append_entries-id :
    (s : NodeInner) (a : AppendEntries) → (handle_append_entries s a).id ≡ s.id
unfolding handle_append_entries
handle_append_entries-id s a = ground (
  arith,
  follow-id (record (adopt_leader_term s a.term) { state = follower; election_elapsed = 0 }) a,
)

pub count_match-id : (s : NodeInner) (r : AppendResponse) → (count_match s r).id ≡ s.id
unfolding count_match
count_match-id s r =
    let e = view-try_advance_commit (record s {
      next_index = insert r.follower_id (inc_word r.match_index) s.next_index;
      match_index = insert r.follower_id r.match_index s.match_index;
    }) in
    ground (arith, ap (λ v. v.id) e)

pub handle_append_entries_response-id :
    (s : NodeInner) (r : AppendResponse) → (handle_append_entries_response s r).id ≡ s.id
unfolding handle_append_entries_response
handle_append_entries_response-id s r = ground (arith, count_match-id s r)

pub tick_leader-id : (s : NodeInner) → (tick_leader s).id ≡ s.id
unfolding tick_leader send_heartbeats
tick_leader-id s = ground arith

pub propose-id : (s : NodeInner) (payload : List ℕ) → (propose s payload).0.id ≡ s.id
unfolding propose propose_leader send_heartbeats
propose-id s payload = elim (state-cases s.state) [
  | inl e ↦ rw (e, propose) refl
  | inr (inl e) ↦ rw (e, propose) refl
  | inr (inr e) ↦ rw (e, propose) refl
]
