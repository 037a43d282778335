-- ===== src/Raft/Tests.antt =====
-- Runs of a cluster of three Raft nodes (tools/vf-evolve/tasks/raft_consensus/initial.rs) and the
-- theorems about them at concrete states.
use verified_concurrent.Base.{some, ℕ, ◌≡◌, refl, true, List, [], ◌∷◌, ◌++◌, unwrap_or, get_elem?}
use verified_concurrent.Base.Maps.{lookup}
use verified_concurrent.Raft.State.{leader, LogEntry, AppendEntries, NodeInner, new_node}
use verified_concurrent.Raft.Cluster.{Action, ticks, proposes, sends, delivers, start_cluster, run}
use verified_concurrent.Raft.State.{Message, request_vote, append_entries_response}
use verified_concurrent.Raft.Handlers.{
  step, handle_append_entries, apply_committed, try_advance_commit,
}
use verified_concurrent.Raft.Elections.{run-one_leader}
use verified_concurrent.Raft.LogMatching.{run-logs_match, run-leader_completes, run-indexed}
use verified_concurrent.Raft.Steps.{Durable, step-Durable, step-leader_log}
use verified_concurrent.Raft.Logs.{indexed, stores}
use verified_concurrent.Raft.Follow.{handle_append_entries-stores, handle_append_entries-twice}
use verified_concurrent.Raft.Commits.{
  Applies, Advances, apply_committed-Applies, try_advance_commit-Advances,
}
use verified_concurrent.Base.{◌<◌, get_elem?, arith, distinct}

abbrev ids : List ℕ
ids = 1 ∷ 2 ∷ 3 ∷ []

-- The clock of a node runs to its election timeout.
abbrev timeout : ℕ → List Action
timeout i =
    ticks i
    ∷ ticks i
    ∷ ticks i
    ∷ ticks i
    ∷ ticks i
    ∷ ticks i
    ∷ ticks i
    ∷ ticks i
    ∷ ticks i
    ∷ ticks i
    ∷ []

-- Node 1 is elected by node 2.
abbrev election : List Action
election = timeout 1 ++ sends 1 ∷ delivers 0 ∷ sends 2 ∷ delivers 2 ∷ []

abbrev node_at : ℕ → List Action → NodeInner
node_at i actions = unwrap_or (new_node 0 []) (lookup i (run (start_cluster ids) actions).nodes)

election_test : (node_at 1 election).state ≡ leader
unfolding run start_cluster
election_test = refl

-- Node 3 leads in term 1 and appends an entry that it sends to no one; node 1 leads in term 2 with an
-- empty log, node 3 answers its heartbeat with the length of its own log, and node 1 appends an entry.
abbrev stale_suffix : List Action
stale_suffix =
    timeout 3
    ++ sends 3 ∷ delivers 0 ∷ sends 1 ∷ delivers 2 ∷ proposes 3 (7 ∷ []) ∷ timeout 1
    ++ sends 1
      ∷ delivers 3
      ∷ sends 2
      ∷ delivers 5
      ∷ sends 1
      ∷ delivers 6
      ∷ delivers 7
      ∷ sends 3
      ∷ sends 2
      ∷ delivers 12
      ∷ proposes 1 (9 ∷ [])
      ∷ delivers 13
      ∷ []

-- Node 1 commits its entry, which no other node has.
stale_suffix_test :
    ((node_at 1 stale_suffix).pending_committed
      ≡ record { index = 1; term = 2; payload = 9 ∷ [] } ∷ [])
    × ((node_at 2 stale_suffix).log ≡ [])
    × ((node_at 3 stale_suffix).log ≡ record { index = 1; term = 1; payload = 7 ∷ [] } ∷ [])
unfolding run start_cluster
stale_suffix_test = (refl, refl, refl)

-- Then node 3 leads in term 3 and commits its entries with node 2: nodes 1 and 3 hand out different
-- entries of index 1.
abbrev divergence : List Action
divergence =
    stale_suffix
    ++ timeout 3
    ++ sends 3
      ∷ delivers 15
      ∷ sends 2
      ∷ delivers 16
      ∷ proposes 3 (8 ∷ [])
      ∷ sends 3
      ∷ delivers 18
      ∷ sends 2
      ∷ delivers 21
      ∷ ticks 3
      ∷ ticks 3
      ∷ ticks 3
      ∷ sends 3
      ∷ delivers 23
      ∷ sends 2
      ∷ delivers 24
      ∷ []

divergence_test :
    (get_elem? (node_at 1 divergence).pending_committed 0
      ≡ some (record { index = 1; term = 2; payload = 9 ∷ [] }))
    × (get_elem? (node_at 3 divergence).pending_committed 0
        ≡ some (record { index = 1; term = 1; payload = 7 ∷ [] }))
unfolding run start_cluster
divergence_test = (refl, refl)

run-one_leader_example : ◌≡◌ {A = ℕ} 1 1
unfolding run start_cluster distinct
run-one_leader_example =
    run-one_leader ids election 1 1 (node_at 1 election) (node_at 1 election) refl (omega arith)
      refl refl refl refl refl

-- Node 3 asks node 2, which has voted for node 1 in the term, for its vote.
abbrev late_request : Message
late_request =
    request_vote (record { term = 1; candidate_id = 3; last_log_index = 0; last_log_term = 0 })

step-Durable_example : Durable (node_at 2 election) (step (node_at 2 election) late_request)
step-Durable_example = step-Durable (node_at 2 election) late_request

abbrev leader_node : NodeInner
leader_node = node_at 1 (election ++ proposes 1 (9 ∷ []) ∷ [])

abbrev stored : Message
stored =
    append_entries_response (record { term = 1; follower_id = 2; success = true; match_index = 1 })

step-leader_log_example : (step leader_node stored).log ≡ leader_node.log
unfolding step run start_cluster
step-leader_log_example = step-leader_log leader_node stored refl

-- A node with entries of terms 1 and 2, and a leader of term 3 with others from the second on.
abbrev entry : ℕ → ℕ → LogEntry
entry i t = record { index = i; term = t; payload = [] }

abbrev behind : NodeInner
behind = record (new_node 2 (1 ∷ 3 ∷ [])) { current_term = 2; log = entry 1 1 ∷ entry 2 2 ∷ [] }

abbrev entries : AppendEntries
entries = record {
  term = 3;
  leader_id = 1;
  prev_log_index = 1;
  prev_log_term = 1;
  entries = entry 2 3 ∷ entry 3 3 ∷ [];
  leader_commit = 2;
}

behind_test : (handle_append_entries behind entries).log ≡ entry 1 1 ∷ entry 2 3 ∷ entry 3 3 ∷ []
unfolding handle_append_entries new_node
behind_test = refl

handle_append_entries-stores_example :
    (stores (handle_append_entries behind entries).log 1 entries.entries ≡ true)
    × ((j : ℕ)
        → j < 1
        → get_elem? (handle_append_entries behind entries).log j ≡ get_elem? behind.log j)
unfolding indexed new_node
handle_append_entries-stores_example =
    handle_append_entries-stores behind entries refl (omega arith) refl

handle_append_entries-twice_example :
    (handle_append_entries (handle_append_entries behind entries) entries).log
    ≡ (handle_append_entries behind entries).log
unfolding indexed new_node
handle_append_entries-twice_example = handle_append_entries-twice behind entries refl (omega arith)

abbrev unapplied : NodeInner
unapplied = record behind { commit_index = 2 }

apply_committed-Applies_example : Applies unapplied (apply_committed unapplied)
unfolding new_node
apply_committed-Applies_example = apply_committed-Applies unapplied (omega arith) (omega arith)

abbrev replicated_node : NodeInner
replicated_node = record behind { state = leader; match_index = (1, 2) ∷ (2, 2) ∷ (3, 0) ∷ [] }

advances_test : (try_advance_commit replicated_node).commit_index ≡ 2
unfolding try_advance_commit new_node
advances_test = refl

try_advance_commit-Advances_example : Advances replicated_node (try_advance_commit replicated_node)
unfolding new_node
try_advance_commit-Advances_example = try_advance_commit-Advances replicated_node (omega arith)

-- Node 1 leads and has its entry taken by node 2.
abbrev replication : List Action
replication = election ++ proposes 1 (9 ∷ []) ∷ sends 1 ∷ delivers 3 ∷ delivers 5 ∷ []

replication_test : (node_at 2 replication).log ≡ (node_at 1 replication).log
unfolding run start_cluster
replication_test = refl

run-logs_match_example :
    get_elem? (node_at 1 replication).log 0 ≡ get_elem? (node_at 2 replication).log 0
unfolding run start_cluster distinct
run-logs_match_example =
    run-logs_match ids replication 1 2 0 (node_at 1 replication) (node_at 2 replication) _ _ refl
      (omega arith) refl refl refl refl refl 0 (omega arith)

run-leader_completes_example :
    get_elem? (node_at 1 replication).log 0 ≡ get_elem? (node_at 2 replication).log 0
unfolding run start_cluster distinct
run-leader_completes_example =
    run-leader_completes ids replication 1 2 0 (node_at 1 replication) (node_at 2 replication) _
      refl (omega arith) refl refl refl refl refl 0 (omega arith)

run-indexed_example : indexed 0 (node_at 2 replication).log ≡ true
unfolding run start_cluster distinct
run-indexed_example = run-indexed ids replication 2 (node_at 2 replication) refl (omega arith) refl
