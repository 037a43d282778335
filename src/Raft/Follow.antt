-- ===== src/Raft/Follow.antt =====
-- What a Raft node (tools/vf-evolve/tasks/raft_consensus/initial.rs) makes of the entries that a leader
-- sends it.
use verified_concurrent.Base.{
  ℕ, zero, suc, ◌+◌, ◌-◌, ◌≤◌, ◌<◌, ◌≡◌, refl, ap, ◌∙◌, Bool, true, false, ◌&&◌, List, [], ◌∷◌,
  ◌++◌, arith, leb, if◌then◌else◌, length, get_elem?, last, Bool-cases, inl, inr,
}
use verified_concurrent.Raft.State.{follower, LogEntry, AppendEntries, NodeInner}
use verified_concurrent.Raft.Handlers.{
  has_term, append_log, log_consistent, delivered, apply_loop, apply_committed, entry_index, min_of,
  follow_commit, follow, adopt_leader_term, handle_append_entries,
}
use verified_concurrent.Raft.Frames.{view-follow_commit}
use verified_concurrent.Raft.Logs.{
  indexed, stores, append_log-before, append_log-indexed, append_log-stores, append_log-stored,
}

pub apply_loop-log : (k : ℕ) (s : NodeInner) → (apply_loop k s).log ≡ s.log
unfolding apply_loop
apply_loop-log zero s = refl
apply_loop-log (suc k) s = ground (
  arith,
  apply_loop-log k (record s {
    last_applied = s.last_applied + 1;
    pending_committed = s.pending_committed ++ delivered (get_elem? s.log s.last_applied);
  }),
)

follow_commit-log : (s : NodeInner) (a : AppendEntries) → (follow_commit s a).log ≡ s.log
unfolding follow_commit apply_committed
follow_commit-log s a =
    let c = min_of a.leader_commit (entry_index (length s.log) (last a.entries)) in
    ground (arith, apply_loop-log (c - s.last_applied) (record s { commit_index = c }))

-- The conditions on which a node takes the entries.
abbrev pub accepts : NodeInner → AppendEntries → Bool
accepts s a = leb s.current_term a.term && log_consistent s.log a.prev_log_index a.prev_log_term

follow-log :
    (s : NodeInner) (a : AppendEntries)
    → (follow s a).log ≡ (
        if log_consistent s.log a.prev_log_index a.prev_log_term
        then append_log s.log a.entries
        else s.log)
unfolding follow
follow-log s a = ground (arith, follow_commit-log (record s { log = append_log s.log a.entries }) a)

pub handle_append_entries-log :
    (s : NodeInner) (a : AppendEntries)
    → (handle_append_entries s a).log ≡ (if accepts s a then append_log s.log a.entries else s.log)
unfolding handle_append_entries
handle_append_entries-log s a = ground (
  arith,
  follow-log (record (adopt_leader_term s a.term) { state = follower; election_elapsed = 0 }) a,
)

follow-term : (s : NodeInner) (a : AppendEntries) → (follow s a).current_term ≡ s.current_term
unfolding follow
follow-term s a =
    ground (
      arith,
      ap (λ v. v.term) (view-follow_commit (record s { log = append_log s.log a.entries }) a),
    )

handle_append_entries-term :
    (s : NodeInner) (a : AppendEntries)
    → leb s.current_term a.term ≡ true
    → (handle_append_entries s a).current_term ≡ a.term
unfolding handle_append_entries
handle_append_entries-term s a h = ground (
  arith,
  follow-term (record (adopt_leader_term s a.term) { state = follower; election_elapsed = 0 }) a,
)

handle_append_entries-stale :
    (s : NodeInner) (a : AppendEntries)
    → leb s.current_term a.term ≡ false
    → (handle_append_entries s a).current_term ≡ s.current_term
unfolding handle_append_entries
handle_append_entries-stale s a h = ground arith

pub consistent-bound :
    (log : List LogEntry) (n t : ℕ) → log_consistent log n t ≡ true → n ≤ length log
consistent-bound log zero t h = omega arith
consistent-bound [] (suc n) t h = absurd (ground arith)
consistent-bound (e ∷ log) (suc zero) t h = omega arith
consistent-bound (e ∷ log) (suc (suc n)) t h = omega (arith, consistent-bound log (suc n) t h)

log_consistent-same :
    (log log' : List LogEntry) (n t : ℕ)
    → ((j : ℕ) → j < n → get_elem? log' j ≡ get_elem? log j)
    → log_consistent log' n t ≡ log_consistent log n t
log_consistent-same log log' zero t h = refl
log_consistent-same log log' (suc n) t h = ap (λ e. has_term e t) (h n (omega arith))

-- The indices of a log stay those of its positions, whatever a leader sends, as long as the entries
-- of a message have the indices after `prev_log_index` and these fit in a word.
pub handle_append_entries-indexed :
    (s : NodeInner) (a : AppendEntries)
    → indexed a.prev_log_index a.entries ≡ true
    → a.prev_log_index + length a.entries < 18446744073709551616
    → indexed 0 s.log ≡ true
    → indexed 0 (handle_append_entries s a).log ≡ true
handle_append_entries-indexed s a h b i = elim (Bool-cases (accepts s a)) [
  | inl e ↦
      let l = consistent-bound s.log a.prev_log_index a.prev_log_term (ground arith) in
      ground (
        arith,
        handle_append_entries-log s a,
        append_log-indexed 18446744073709551616 (omega arith) s.log a.entries a.prev_log_index i h l
            b,
      )
  | inr e ↦ ground (arith, handle_append_entries-log s a)
]

-- A node that takes the entries of a leader, whose indices are those after `prev_log_index` and fit
-- in a word, has entries of their terms at their positions, and keeps all that it had before them.
pub handle_append_entries-stores :
    (s : NodeInner) (a : AppendEntries)
    → indexed a.prev_log_index a.entries ≡ true
    → a.prev_log_index + length a.entries < 18446744073709551616
    → accepts s a ≡ true
    → (stores (handle_append_entries s a).log a.prev_log_index a.entries ≡ true)
      × ((j : ℕ)
          → j < a.prev_log_index
          → get_elem? (handle_append_entries s a).log j ≡ get_elem? s.log j)
handle_append_entries-stores s a h b e =
    let l = consistent-bound s.log a.prev_log_index a.prev_log_term (ground arith) in
    let f : (handle_append_entries s a).log ≡ append_log s.log a.entries =
      ground (arith, handle_append_entries-log s a) in
    (
      ap (λ log. stores log a.prev_log_index a.entries) f
          ∙ append_log-stores 18446744073709551616 (omega arith) s.log a.entries a.prev_log_index h
              l b,
      λ j m.
          ap (λ log. get_elem? log j) f
          ∙ append_log-before 18446744073709551616 (omega arith) s.log a.entries a.prev_log_index j
              h l b m,
    )

-- A message with entries that the network delivers twice in a row leaves the log that it leaves when
-- delivered once, where the indices of the entries are those after `prev_log_index` and fit in a
-- word.
pub handle_append_entries-twice :
    (s : NodeInner) (a : AppendEntries)
    → indexed a.prev_log_index a.entries ≡ true
    → a.prev_log_index + length a.entries < 18446744073709551616
    → (handle_append_entries (handle_append_entries s a) a).log ≡ (handle_append_entries s a).log
handle_append_entries-twice s a h b = elim (Bool-cases (accepts s a)) [
  | inl e ↦
      let t = handle_append_entries s a in
      let (k, p) = handle_append_entries-stores s a h b e in
      let f = handle_append_entries-term s a (ground arith) in
      let c = log_consistent-same s.log t.log a.prev_log_index a.prev_log_term p in
      ground (
        arith,
        handle_append_entries-log t a,
        c,
        f,
        append_log-stored 18446744073709551616 (omega arith) t.log a.entries a.prev_log_index h b k,
      )
  | inr e ↦
      let t = handle_append_entries s a in
      let f : t.log ≡ s.log = ground (arith, handle_append_entries-log s a) in
      let c = ap (λ log. log_consistent log a.prev_log_index a.prev_log_term) f in
      ground (arith, handle_append_entries-log t a, c, handle_append_entries-stale s a)
]
