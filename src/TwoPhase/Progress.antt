-- ===== src/TwoPhase/Progress.antt =====
-- `run_commit` of two-phase commit (tools/vf-evolve/tasks/two_phase_commit/initial.rs) carries a
-- new transaction through to a commit at every resource manager.
use verified_concurrent.Base.{
  ℕ, ◌≡◌, refl, ◌∙◌, true, some, List, arith, contains, distinct, all-true,
}
use verified_concurrent.Base.Maps.{lookup, keys, lookup-insert, lookup-fill, contains-keys}
use verified_concurrent.TwoPhase.Txn.{
  RmState, working, TmState, preparing, commit, ok, TxnInner, new_txn, tm_prepare_txn, same_set,
  tm_commit_txn,
}
use verified_concurrent.TwoPhase.Table.{
  TwoPhaseCommit, begin, get_tm_state, get_rm_state, tm_prepare, tm_commit, run_commit,
}
use verified_concurrent.TwoPhase.Phases.{Succeeds, on_txn-Succeeds, Voted, prepare_all, deliver_all}

-- The three phases on a table that holds the new transaction.
all_votes-same_set :
    (rms : List ℕ) (y : TxnInner)
    → Voted (record (new_txn rms) { tm_state = preparing }) rms y
    → same_set y.prepared_set (keys y.rm_states) ≡ true
unfolding same_set new_txn contains
all_votes-same_set rms y v = ground (
  arith,
  all-true (λ a. contains a (keys y.rm_states)) y.prepared_set
      (λ a m. ground (arith, v.votes a, v.states a, contains-keys a y.rm_states)),
  all-true (λ a. contains a y.prepared_set) (keys y.rm_states)
      (λ a m.
        ground
          (arith, v.votes a, v.states a, contains-keys a y.rm_states, lookup-fill working a rms)),
)

record Committed (t : TwoPhaseCommit) (id : ℕ) : Type 0 where
  final : TwoPhaseCommit
  ran : run_commit id t ≡ (final, ok commit)
  entry : TxnInner
  found : lookup id final.txns ≡ some entry
  decided : entry.tm_state ≡ TmState.committed
  everywhere :
      (rm : ℕ) → contains rm t.rm_ids ≡ true → lookup rm entry.rm_states ≡ some RmState.committed

abbrev preparing_txn : List ℕ → TxnInner
preparing_txn rms = record (new_txn rms) { tm_state = preparing }

tm_prepare-Succeeds :
    (t : TwoPhaseCommit) (id : ℕ) (rms : List ℕ)
    → lookup id t.txns ≡ some (new_txn rms)
    → Succeeds (tm_prepare id) t id (preparing_txn rms)
unfolding tm_prepare
tm_prepare-Succeeds t id rms e =
    on_txn-Succeeds id tm_prepare_txn t (new_txn rms) (preparing_txn rms) e
      (unfold tm_prepare_txn new_txn in refl)

tm_commit-Succeeds :
    (t : TwoPhaseCommit) (id : ℕ) (rms : List ℕ) (y : TxnInner)
    → lookup id t.txns ≡ some y
    → Voted (preparing_txn rms) rms y
    → Succeeds (tm_commit id) t id (record y { tm_state = TmState.committed })
unfolding tm_commit
tm_commit-Succeeds t id rms y e v =
    on_txn-Succeeds id tm_commit_txn t y (record y { tm_state = TmState.committed }) e
      (rw (v.same_tm, all_votes-same_set rms y v, tm_commit_txn))

run_commit-Committed :
    (t : TwoPhaseCommit) (id : ℕ)
    → lookup id t.txns ≡ some (new_txn t.rm_ids)
    → distinct t.rm_ids ≡ true
    → Committed t id
unfolding run_commit
run_commit-Committed t id e d =
    let rms = t.rm_ids in
    let s1 = tm_prepare-Succeeds t id rms e in
    let (y, s2, v) =
      prepare_all id rms s1.final (preparing_txn rms) s1.entry d
        (λ r m. unfold new_txn in ground (arith, lookup-fill working r rms)) in
    let s3 = tm_commit-Succeeds s2.final id rms y s2.entry v in
    let (z, s4, w) =
      deliver_all id rms s3.final (record y { tm_state = TmState.committed }) s3.entry refl
        (λ r m. ground (arith, v.states r)) in
    record {
      final = s4.final;
      ran = rw (s1.ran, s2.ran, s3.ran, s4.ran);
      entry = z;
      found = s4.entry;
      decided = w.same_tm;
      everywhere = λ r m. ground (arith, w.states r);
    }

abbrev Commits : TwoPhaseCommit → ℕ → Type 0
Commits t id =
    ((run_commit id t).1 ≡ ok commit)
    × (get_tm_state (run_commit id t).0 id ≡ some TmState.committed)
    × ((rm : ℕ)
        → contains rm t.rm_ids ≡ true
        → get_rm_state (run_commit id t).0 id rm ≡ some RmState.committed)

found_rm :
    (t : TwoPhaseCommit) (id rm : ℕ) (x : TxnInner)
    → lookup id t.txns ≡ some x
    → get_rm_state t id rm ≡ lookup rm x.rm_states
unfolding get_rm_state
found_rm t id rm x e = rw (e, get_rm_state)

Committed-Commits : (t : TwoPhaseCommit) (id : ℕ) → Committed t id → Commits t id
unfolding get_tm_state
Committed-Commits t id c = (
  rw c.ran,
  rw (c.ran, c.found, c.decided),
  λ rm m. rw c.ran (found_rm c.final id rm c.entry c.found ∙ c.everywhere rm m),
)

-- On a table whose resource managers are distinct, a new transaction that `run_commit` is called
-- on commits: the call returns the commit decision, the transaction manager has committed and so
-- has every resource manager.
pub run_commit_commits :
    (t : TwoPhaseCommit)
    → distinct t.rm_ids ≡ true
    → let id = t.next_txn_id in
      let result = run_commit id (begin t).0 in
      (result.1 ≡ ok commit)
      × (get_tm_state result.0 id ≡ some TmState.committed)
      × ((rm : ℕ)
          → contains rm t.rm_ids ≡ true
          → get_rm_state result.0 id rm ≡ some RmState.committed)
unfolding begin
run_commit_commits t d = Committed-Commits (begin t).0 t.next_txn_id (
    run_commit-Committed (begin t).0 t.next_txn_id
      (ground (arith, lookup-insert t.next_txn_id t.next_txn_id (new_txn t.rm_ids) t.txns)) d)
