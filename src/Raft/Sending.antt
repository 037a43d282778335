-- ===== src/Raft/Sending.antt =====
-- tools/vf-evolve/tasks/raft_consensus/initial.rs: what a node sends on its own account: the start of
-- an election, heartbeats with the entries that a peer lacks, and the clock and the proposals that
-- lead to them.
use verified_concurrent.Base.{
  ℕ, zero, suc, ◌+◌, ◌-◌, Option, none, some, List, [], ◌∷◌, ◌++◌, map, length, get_elem?, last,
  retain, leb, is_empty, not, ◌||◌, if◌then◌else◌,
}
use verified_concurrent.Base.Maps.{lookup, insert, get_or}
use verified_concurrent.Raft.State.{
  candidate, leader, RaftError, not_leader, LogEntry, Message, request_vote, append_entries,
  NodeInner, Ready, inc_word,
}

-- `e.index` and `e.term` of the last entry, and `(0, 0)` where there is none.
abbrev pub entry_info : Option LogEntry → ℕ × ℕ
entry_info none = (0, 0)
entry_info (some e) = (e.index, e.term)

-- `last_log_info`
unfoldable pub last_log_info : NodeInner → ℕ × ℕ
last_log_info s = entry_info (last s.log)

abbrev pub entry_term : Option LogEntry → ℕ
entry_term none = 0
entry_term (some e) = e.term

unfoldable pub vote_request : NodeInner → Message
unfolding last_log_info
vote_request s = request_vote (record {
  term = s.current_term;
  candidate_id = s.id;
  last_log_index = (last_log_info s).0;
  last_log_term = (last_log_info s).1;
})

abbrev pub to_peers : NodeInner → (ℕ → Message) → List ℕ → NodeInner
to_peers s f peers = record s { pending_messages = s.pending_messages ++ map (λ p. (p, f p)) peers }

-- `start_election`
unfoldable pub start_election : NodeInner → NodeInner
unfolding vote_request
start_election s =
    let t : NodeInner = record s {
      current_term = inc_word s.current_term;
      state = candidate;
      voted_for = some s.id;
      votes_received = s.id ∷ [];
      election_elapsed = 0;
    } in
    to_peers t (λ p. vote_request t) t.peers

-- The term of the entry before the next one for a peer.
abbrev pub prev_term : List LogEntry → ℕ → ℕ
prev_term log zero = 0
prev_term log (suc n) = entry_term (get_elem? log n)

unfoldable pub heartbeat : NodeInner → ℕ → Message
unfolding lookup retain
heartbeat s peer =
    let next_idx = get_or 1 peer s.next_index in
    append_entries (record {
      term = s.current_term;
      leader_id = s.id;
      prev_log_index = next_idx - 1;
      prev_log_term = prev_term s.log (next_idx - 1);
      entries = retain (λ e. leb next_idx e.index) s.log;
      leader_commit = s.commit_index;
    })

-- `send_heartbeats`, and `send_append_entries`, which calls it.
unfoldable pub send_heartbeats : NodeInner → NodeInner
unfolding heartbeat
send_heartbeats s = to_peers s (heartbeat s) s.peers

-- The two arms of `tick`
unfoldable pub tick_leader : NodeInner → NodeInner
unfolding send_heartbeats
tick_leader s =
    let elapsed = inc_word s.heartbeat_elapsed in
    if leb s.heartbeat_interval elapsed
    then send_heartbeats (record s { heartbeat_elapsed = 0 })
    else record s { heartbeat_elapsed = elapsed }

unfoldable pub tick_other : NodeInner → NodeInner
unfolding start_election
tick_other s =
    let elapsed = inc_word s.election_elapsed in
    if leb s.election_timeout elapsed
    then start_election (record s { election_elapsed = elapsed })
    else record s { election_elapsed = elapsed }

-- `tick`
unfoldable pub tick : NodeInner → NodeInner
unfolding tick_leader tick_other
tick s = elim s.state [ leader ↦ tick_leader s | _ ↦ tick_other s ]

pub data ProposeResult : Type 0 where
  proposed : ℕ → ProposeResult
  refused : RaftError → ProposeResult

unfoldable pub propose_leader : NodeInner → List ℕ → NodeInner
unfolding send_heartbeats insert
propose_leader s payload =
    let index = length s.log + 1 in
    send_heartbeats (record s {
      log = s.log ++ record { index = index; term = s.current_term; payload = payload } ∷ [];
      match_index = insert s.id index s.match_index;
    })

-- `propose`
unfoldable pub propose : NodeInner → List ℕ → NodeInner × ProposeResult
unfolding propose_leader
propose s payload = elim s.state [
  | leader ↦ (propose_leader s payload, proposed (length s.log + 1))
  | _ ↦ (s, refused not_leader)
]

-- `ready`
abbrev pub ready : NodeInner → Ready
ready s = record {
  messages = s.pending_messages;
  committed_entries = s.pending_committed;
  should_persist = not (is_empty s.pending_messages) || not (is_empty s.pending_committed);
}

-- `advance`
abbrev pub advance : NodeInner → NodeInner
advance s = record s { pending_messages = []; pending_committed = [] }
