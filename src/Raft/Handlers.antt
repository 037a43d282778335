-- ===== src/Raft/Handlers.antt =====
-- tools/vf-evolve/tasks/raft_consensus/initial.rs: how a node processes a message.
use verified_concurrent.Base.{
  ℕ, zero, suc, ◌+◌, ◌-◌, Bool, true, false, ◌&&◌, ◌||◌, not, Option, none, some, List, [], ◌∷◌,
  ◌++◌, length, get_elem?, last, take, contains, leb, ltb, ◌==◌, is_some, same_option,
  if◌then◌else◌,
}
use verified_concurrent.Base.Maps.{Map, lookup, insert, get_or}
use verified_concurrent.Raft.State.{
  NodeState, follower, candidate, leader, LogEntry, Message, request_vote, request_vote_response,
  append_entries, append_entries_response, RequestVote, VoteResponse, AppendEntries, AppendResponse,
  NodeInner, quorum_size, inc_word, dec_word,
}
use verified_concurrent.Raft.Sending.{last_log_info, send_heartbeats}

abbrev pub is_candidate : NodeState → Bool
is_candidate candidate = true
is_candidate _ = false

abbrev pub is_leader : NodeState → Bool
is_leader leader = true
is_leader _ = false

abbrev pub send : NodeInner → ℕ → Message → NodeInner
send s to m = record s { pending_messages = s.pending_messages ++ (to, m) ∷ [] }

-- What a higher term makes of a node.
abbrev pub step_down : NodeInner → ℕ → NodeInner
step_down s term = record s {
  current_term = term;
  state = follower;
  voted_for = none;
  votes_received = [];
}

abbrev pub adopt_term : NodeInner → ℕ → NodeInner
adopt_term s term = if ltb s.current_term term then step_down s term else s

-- The test for a vote, in the term of the node.
unfoldable pub grants : NodeInner → RequestVote → Bool
unfolding last_log_info
grants s r =
    let mine = last_log_info s in
    let log_ok =
      ltb mine.1 r.last_log_term || (r.last_log_term == mine.1 && leb mine.0 r.last_log_index) in
    leb s.current_term r.term
    && ((not (is_some s.voted_for) || same_option s.voted_for (some r.candidate_id)) && log_ok)

-- `handle_request_vote` in the term of the node.
unfoldable pub answer_vote : NodeInner → RequestVote → NodeInner
unfolding grants
answer_vote s r =
    let granted = grants s r in
    let t : NodeInner =
      (if granted then record s { voted_for = some r.candidate_id; election_elapsed = 0 } else s) in
    send t r.candidate_id (
      request_vote_response
        (record { term = t.current_term; voter_id = t.id; vote_granted = granted }))

-- `handle_request_vote`
unfoldable pub handle_request_vote : NodeInner → RequestVote → NodeInner
unfolding answer_vote
handle_request_vote s r = answer_vote (adopt_term s r.term) r

-- `for &peer in &inner.peers { map.insert(peer, v) }`
unfoldable pub insert_each : ℕ → List ℕ → Map ℕ → Map ℕ
unfolding insert
insert_each v [] m = m
insert_each v (p ∷ ps) m = insert_each v ps (insert p v m)

-- The state of a new leader.
unfoldable pub elected : NodeInner → NodeInner
unfolding insert_each insert
elected s = record s {
  state = leader;
  heartbeat_elapsed = 0;
  next_index = insert_each (length s.log + 1) s.peers s.next_index;
  match_index = insert s.id (length s.log) (insert_each 0 s.peers s.match_index);
}

-- `become_leader`
unfoldable pub become_leader : NodeInner → NodeInner
unfolding elected send_heartbeats
become_leader s = send_heartbeats (elected s)

-- The vote that a candidate receives in its term.
unfoldable pub count_vote : NodeInner → VoteResponse → NodeInner
unfolding contains become_leader
count_vote s r =
    let t : NodeInner =
      (if r.vote_granted && not (contains r.voter_id s.votes_received)
        then record s { votes_received = s.votes_received ++ r.voter_id ∷ [] }
        else s) in
    if leb (quorum_size (length t.peers + 1)) (length t.votes_received) then become_leader t else t

-- `handle_vote_response`
unfoldable pub handle_vote_response : NodeInner → VoteResponse → NodeInner
unfolding count_vote
handle_vote_response s r =
    if ltb s.current_term r.term
    then step_down s r.term
    else if not (is_candidate s.state) || not (r.term == s.current_term)
    then s
    else count_vote s r

-- The entries that `apply_committed` appends for the entry at a position.
abbrev pub delivered : Option LogEntry → List LogEntry
delivered none = []
delivered (some e) = e ∷ []

-- The loop of `apply_committed` with a bound on its rounds.
unfoldable pub apply_loop : ℕ → NodeInner → NodeInner
apply_loop zero s = s
apply_loop (suc rounds) s =
    let next = apply_loop rounds (record s {
      last_applied = s.last_applied + 1;
      pending_committed = s.pending_committed ++ delivered (get_elem? s.log s.last_applied);
    }) in
    if ltb s.last_applied s.commit_index then next else s

-- `apply_committed`
unfoldable pub apply_committed : NodeInner → NodeInner
unfolding apply_loop
apply_committed s = apply_loop (s.commit_index - s.last_applied) s

abbrev pub has_term : Option LogEntry → ℕ → Bool
has_term none term = false
has_term (some e) term = e.term == term

-- The loop over the received entries: those that conflict replace the rest of the log.
unfoldable pub append_log : List LogEntry → List LogEntry → List LogEntry
append_log log [] = log
append_log log (e ∷ es) =
    let idx = dec_word e.index in
    if ltb idx (length log)
    then if not (has_term (get_elem? log idx) e.term)
      then append_log (take idx log ++ e ∷ []) es
      else append_log log es
    else append_log (log ++ e ∷ []) es

abbrev pub entry_index : ℕ → Option LogEntry → ℕ
entry_index d none = d
entry_index d (some e) = e.index

abbrev pub min_of : ℕ → ℕ → ℕ
min_of a b = if leb a b then a else b

abbrev pub respond : NodeInner → ℕ → Bool → ℕ → NodeInner
respond s to success match_index = send s to (
    append_entries_response (record {
      term = s.current_term;
      follower_id = s.id;
      success = success;
      match_index = match_index;
    }))

-- The update of the commit index by a leader's.
unfoldable pub follow_commit : NodeInner → AppendEntries → NodeInner
unfolding apply_committed
follow_commit s a =
    if ltb s.commit_index a.leader_commit
    then apply_committed (record s {
      commit_index = min_of a.leader_commit (entry_index (length s.log) (last a.entries));
    })
    else s

-- Whether the entry before the received ones is in the log.
abbrev pub log_consistent : List LogEntry → ℕ → ℕ → Bool
log_consistent log zero term = true
log_consistent log (suc n) term = has_term (get_elem? log n) term

-- `handle_append_entries` by a follower of the sender's term.
unfoldable pub follow : NodeInner → AppendEntries → NodeInner
unfolding append_log follow_commit
follow s a =
    if not (log_consistent s.log a.prev_log_index a.prev_log_term)
    then respond s a.leader_id false 0
    else let t = follow_commit (record s { log = append_log s.log a.entries }) a in
      respond t a.leader_id true (length t.log)

-- What a higher term makes of a node in `handle_append_entries`, which sets the state later.
abbrev pub adopt_leader_term : NodeInner → ℕ → NodeInner
adopt_leader_term s term =
    if ltb s.current_term term
    then record s { current_term = term; voted_for = none; votes_received = [] }
    else s

-- `handle_append_entries`
unfoldable pub handle_append_entries : NodeInner → AppendEntries → NodeInner
unfolding follow
handle_append_entries s a =
    let t = adopt_leader_term s a.term in
    if ltb a.term t.current_term
    then respond t a.leader_id false 0
    else follow (record t { state = follower; election_elapsed = 0 }) a

-- `match_index.values().filter(|&&mi| mi >= n).count()`
unfoldable pub replicated : ℕ → Map ℕ → ℕ
replicated n [] = 0
replicated n ((j, mi) ∷ m) = if leb n mi then replicated n m + 1 else replicated n m

-- The loop of `try_advance_commit` from index `n` down to the commit index: the index to commit. The
-- source adds 1 to the commit index, which has been at most the length of a log and does not wrap.
unfoldable pub find_commit : NodeInner → ℕ → Option ℕ
unfolding replicated
find_commit s zero = none
find_commit s (suc n) =
    let rest = find_commit s n in
    if leb (suc n) s.commit_index
    then none
    else if leb (quorum_size (length s.peers + 1)) (replicated (suc n) s.match_index)
        && has_term (get_elem? s.log n) s.current_term
    then some (suc n)
    else rest

-- `try_advance_commit`
unfoldable pub try_advance_commit : NodeInner → NodeInner
unfolding find_commit apply_committed
try_advance_commit s = elim (find_commit s (length s.log)) [
  | none ↦ s
  | some n ↦ apply_committed (record s { commit_index = n })
]

abbrev pub max_one : ℕ → ℕ
max_one n = if leb n 1 then 1 else n

-- The response of a follower that a leader receives in its term.
unfoldable pub count_match : NodeInner → AppendResponse → NodeInner
unfolding lookup insert try_advance_commit
count_match s r =
    if r.success
    then try_advance_commit (record s {
      next_index = insert r.follower_id (inc_word r.match_index) s.next_index;
      match_index = insert r.follower_id r.match_index s.match_index;
    })
    else record s {
      next_index =
          insert r.follower_id (max_one (get_or 1 r.follower_id s.next_index - 1)) s.next_index;
    }

-- `handle_append_entries_response`
unfoldable pub handle_append_entries_response : NodeInner → AppendResponse → NodeInner
unfolding count_match
handle_append_entries_response s r =
    if ltb s.current_term r.term
    then step_down s r.term
    else if not (is_leader s.state) || not (r.term == s.current_term)
    then s
    else count_match s r

-- `step`, which succeeds on every message.
unfoldable pub step : NodeInner → Message → NodeInner
unfolding handle_request_vote handle_vote_response handle_append_entries
    handle_append_entries_response
step s (request_vote r) = handle_request_vote s r
step s (request_vote_response r) = handle_vote_response s r
step s (append_entries a) = handle_append_entries s a
step s (append_entries_response r) = handle_append_entries_response s r
