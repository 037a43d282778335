-- ===== src/TwoPhase/Tests.antt =====
-- Runs of two-phase commit (tools/vf-evolve/tasks/two_phase_commit/initial.rs) and the theorems at
-- the tables that they leave.
use verified_concurrent.Base.{ℕ, ◌≡◌, refl, some, List, [], ◌∷◌, ◌⊎◌, contains, distinct, true}
use verified_concurrent.TwoPhase.Txn.{RmState, TmState, commit, abort, not_all_prepared, ok, err}
use verified_concurrent.TwoPhase.Table.{
  new, begin, get_tm_state, get_rm_state, run_commit, run_abort, tm_commit,
}
use verified_concurrent.TwoPhase.Atomicity.{
  Call, begins, tm_prepares, rm_prepares, rm_rcv_commits, tm_commits, after_all, commit_is_atomic,
}
use verified_concurrent.TwoPhase.Progress.{run_commit_commits}

abbrev rms : List ℕ
rms = 1 ∷ 2 ∷ 3 ∷ []

-- Two managers have voted; the third has not.
abbrev two_votes : List Call
two_votes = begins ∷ tm_prepares 1 ∷ rm_prepares 1 1 ∷ rm_prepares 1 2 ∷ []

early_commit_fails : (tm_commit 1 (after_all (new rms) two_votes)).1 ≡ err not_all_prepared
unfolding tm_commit after_all new
early_commit_fails = refl

-- All have voted, the decision has reached the first.
abbrev one_delivery : List Call
one_delivery =
    begins
    ∷ tm_prepares 1
    ∷ rm_prepares 1 1
    ∷ rm_prepares 1 2
    ∷ rm_prepares 1 3
    ∷ tm_commits 1
    ∷ rm_rcv_commits 1 1
    ∷ []

commit_is_atomic_example :
    (get_tm_state (after_all (new rms) one_delivery) 1 ≡ some TmState.committed)
    × ((RmState.prepared ≡ RmState.prepared) ⊎ (RmState.prepared ≡ RmState.committed))
unfolding after_all new get_rm_state
commit_is_atomic_example = commit_is_atomic rms one_delivery 1 1 2 RmState.prepared refl refl

run_commit_commits_example :
    ((run_commit 1 (begin (new rms)).0).1 ≡ ok commit)
    × (get_tm_state (run_commit 1 (begin (new rms)).0).0 1 ≡ some TmState.committed)
    × ((rm : ℕ)
        → contains rm rms ≡ true
        → get_rm_state (run_commit 1 (begin (new rms)).0).0 1 rm ≡ some RmState.committed)
unfolding new
run_commit_commits_example = run_commit_commits (new rms) (unfold distinct in refl)

run_abort_aborts : (run_abort 1 2 (begin (new rms)).0).1 ≡ ok abort
unfolding run_abort begin new
run_abort_aborts = refl
