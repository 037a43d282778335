-- ===== src/SsiModel/Tests.antt =====
-- Runs of the SSI state machine (crates/vf-stateright/src/ssi.rs), the pre-built oracles among them,
-- and the theorems at the states that they reach.
use verified_concurrent.Base.{
  ◌≢◌, ◌≡◌, refl, true, false, none, some, all, List, [], ◌∷◌, ◌++◌, arith, unwrap_or,
}
use verified_concurrent.SsiModel.State.{
  not_started, committed, aborted, begin, commit, SsiState, SsiAction, begins, reads, writes,
  commits, init,
}
use verified_concurrent.SsiModel.Queries.{status_of, lock_holder, latest_version, active_in}
use verified_concurrent.SsiModel.Apply.{apply, run}
use verified_concurrent.SsiModel.Steps.{Reach, start, Reach-run}
use verified_concurrent.SsiModel.Safety.{
  no_committed_dangerous_structures, Reach-no_committed_dangerous_structures,
}
use verified_concurrent.SsiModel.History.{IsLogged, Reach-IsLogged}
use verified_concurrent.SsiModel.Locks.{wrote, no_dirty_write}
use verified_concurrent.SsiModel.Holders.{committed_holds_no_lock}
use verified_concurrent.SsiModel.Orphans.{here, read_abort_blocks_key}
use verified_concurrent.SsiModel.Enabled.{possible_actions, enabled, possible_actions-enabled}
use verified_concurrent.SsiModel.Checks.{
  first_committer_wins, check_invariants, first_committer_wins-rewrite,
}

initial : SsiState
unfolding init
initial = init (1 ∷ 2 ∷ []) (1 ∷ 2 ∷ 3 ∷ [])

after : List SsiAction → SsiState
unfolding run initial
after acts = unwrap_or initial (run initial acts)

-- The oracle `dangerous_structure`: write skew, the commit aborts.
abbrev write_skew : List SsiAction
write_skew = begins 1 ∷ begins 2 ∷ reads 1 1 ∷ reads 2 2 ∷ writes 1 2 ∷ writes 2 1 ∷ commits 1 ∷ []

write_skew_aborts : status_of (after write_skew) 1 ≡ aborted
unfolding after status_of
write_skew_aborts = refl

-- The oracle `write_write_conflict`: two writers of one key, one after the other.
abbrev sequential_writes : List SsiAction
sequential_writes = begins 1 ∷ writes 1 1 ∷ commits 1 ∷ begins 2 ∷ writes 2 1 ∷ commits 2 ∷ []

sequential_writes_commit :
    (status_of (after sequential_writes) 2 ≡ committed)
    × (check_invariants (after sequential_writes) ≡ [])
unfolding after status_of check_invariants
sequential_writes_commit = (refl, refl)

-- The oracle `read_only`: the second transaction reads the first one's write.
read_only_sees_write :
    latest_version (after (begins 1 ∷ writes 1 1 ∷ commits 1 ∷ begins 2 ∷ [])) 1 3 ≡ some 1
unfolding after latest_version
read_only_sees_write = refl

-- Two concurrent transactions both commit a write of key 1: the lock is free once the first has
-- committed, and no branch of `Write` looks for a committed writer newer than the snapshot.
abbrev lost_update : List SsiAction
lost_update = begins 1 ∷ begins 2 ∷ writes 1 1 ∷ commits 1 ∷ writes 2 1 ∷ commits 2 ∷ []

lost_update_violates :
    (status_of (after lost_update) 1 ≡ committed)
    × (status_of (after lost_update) 2 ≡ committed)
    × (first_committer_wins (after lost_update) ≡ false)
unfolding after status_of first_committer_wins
lost_update_violates = (refl, refl, refl)

write_skew-Reach : Reach (1 ∷ 2 ∷ []) (1 ∷ 2 ∷ 3 ∷ []) (after write_skew)
unfolding after initial
write_skew-Reach =
    Reach-run (init (1 ∷ 2 ∷ []) (1 ∷ 2 ∷ 3 ∷ [])) (after write_skew) write_skew start refl

no_committed_dangerous_structures_example :
    no_committed_dangerous_structures (after write_skew) ≡ true
no_committed_dangerous_structures_example = Reach-no_committed_dangerous_structures write_skew-Reach

IsLogged_example : IsLogged (after write_skew) 2
IsLogged_example = Reach-IsLogged write_skew-Reach 2

abbrev two_active : List SsiAction
two_active = begins 1 ∷ begins 2 ∷ writes 1 1 ∷ writes 2 2 ∷ []

two_active-Reach : Reach (1 ∷ 2 ∷ []) (1 ∷ 2 ∷ 3 ∷ []) (after two_active)
unfolding after initial
two_active-Reach =
    Reach-run (init (1 ∷ 2 ∷ []) (1 ∷ 2 ∷ 3 ∷ [])) (after two_active) two_active start refl

no_dirty_write_example : wrote 2 1 (after two_active).history ≡ false
unfolding after wrote active_in
no_dirty_write_example = no_dirty_write two_active-Reach 1 2 1 (λ e. ground arith) refl refl refl

-- After its write of key 2 transaction 1 holds the lock.
abbrev one_write : List SsiAction
one_write = begins 1 ∷ writes 1 2 ∷ []

one_write-Reach : Reach (1 ∷ 2 ∷ []) (1 ∷ 2 ∷ 3 ∷ []) (after one_write)
unfolding after initial
one_write-Reach =
    Reach-run (init (1 ∷ 2 ∷ []) (1 ∷ 2 ∷ 3 ∷ [])) (after one_write) one_write start refl

committed_holds_no_lock_example :
    (status_of (after one_write) 1 ≢ committed) × (status_of (after one_write) 1 ≢ not_started)
unfolding after lock_holder
committed_holds_no_lock_example = committed_holds_no_lock one_write-Reach 1 2 refl

-- Transaction 1 writes key 3, then aborts when it reads key 1 that transaction 2 has written.
abbrev before_abort : List SsiAction
before_abort = begins 1 ∷ begins 2 ∷ reads 2 3 ∷ writes 1 3 ∷ writes 2 1 ∷ commits 2 ∷ []

abbrev after_abort : List SsiAction
after_abort = before_abort ++ reads 1 1 ∷ []

read_abort_blocks_key_example : apply (after after_abort) (writes 2 3) ≡ none
unfolding after lock_holder status_of apply
read_abort_blocks_key_example =
    read_abort_blocks_key (after before_abort) (after after_abort) 1 1 3 refl refl refl here 2

-- One transaction that writes key 1 twice and commits.
abbrev rewrite_run : List SsiAction
rewrite_run = begins 1 ∷ writes 1 1 ∷ writes 1 1 ∷ commits 1 ∷ []

first_committer_wins-rewrite_example : first_committer_wins (after rewrite_run) ≡ false
unfolding after first_committer_wins
first_committer_wins-rewrite_example =
    first_committer_wins-rewrite (after rewrite_run) 1 1 (begin 1 ∷ []) [] (commit 1 ∷ []) refl refl
      refl (omega arith)

possible_actions-enabled_example :
    all (enabled (after write_skew)) (possible_actions (after write_skew)) ≡ true
possible_actions-enabled_example = possible_actions-enabled (after write_skew)
