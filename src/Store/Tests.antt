-- ===== src/Store/Tests.antt =====
-- Runs of the store (crates/vf-examples/src/ssi.rs), and the theorems at the states that they reach.
use verified_concurrent.Base.{
  unwrap_or, ◌++◌, ◌↔◌, ◌≡◌, ◌≢◌, refl, true, none, some, List, [], ◌∷◌, arith, contains,
}
use verified_concurrent.Base.Maps.{lookup}
use verified_concurrent.Store.State.{new_txn, TxnState, Version, active, committed, new}
use verified_concurrent.Store.Queries.{visible_version, status_at}
use verified_concurrent.Store.Calls.{read_key, write_key, commit_txn, get_conflict_flags}
use verified_concurrent.Store.Exclusion.{ActiveWriter, write_sets_disjoint}
use verified_concurrent.Store.Outcomes.{status_is_final, committed_set-exact}
use verified_concurrent.Store.Safety.{
  aborts, Call, begins, reads, writes, commits, after_all, lock_holder_is_active,
  read_key-committed,
}

-- Transaction 1 writes 7 to key 1 and commits; transaction 2 starts, and writes key 2.
abbrev two_transactions : List Call
two_transactions = begins ∷ writes 1 1 7 ∷ commits 1 ∷ begins ∷ writes 2 2 9 ∷ []

reads_seven : (read_key (after_all new two_transactions) 2 1).1 ≡ some 7
unfolding after_all read_key
reads_seven = refl

-- Transaction 2 writes 9 to key 1, which it may, and reads the value of transaction 1 there.
own_write_unread :
    ((write_key (after_all new two_transactions) 2 1 9).1 ≡ true)
    × ((read_key (write_key (after_all new two_transactions) 2 1 9).0 2 1).1 ≡ some 7)
unfolding after_all write_key read_key
own_write_unread = (refl, refl)

lock_holder_is_active_example :
    (st : TxnState) × (lookup 2 (after_all new two_transactions).txns ≡ some st)
    × (st.status ≡ active)
    × (contains 2 st.write_set ≡ true)
unfolding after_all
lock_holder_is_active_example = lock_holder_is_active two_transactions 2 2 (omega arith) refl

read_key-committed_example :
    (st : TxnState) × (v : Version) × (lookup 2 (after_all new two_transactions).txns ≡ some st)
    × (visible_version (after_all new two_transactions) 1 st.snapshot_ts ≡ some v)
    × (v.value ≡ 7)
    × (status_at (after_all new two_transactions).txns v.writer_txn ≡ some committed)
    × (v.writer_txn ≢ 2)
unfolding after_all read_key
read_key-committed_example = read_key-committed two_transactions 2 1 7 (omega arith) refl

status_is_final_example :
    status_at
      (after_all (after_all new two_transactions) (writes 1 1 8 ∷ aborts 1 ∷ commits 2 ∷ [])).txns
      1
    ≡ some committed
unfolding after_all
status_is_final_example =
    status_is_final two_transactions (writes 1 1 8 ∷ aborts 1 ∷ commits 2 ∷ []) 1 committed
      (omega arith) refl refl

committed_set-exact_example :
    (contains 1 (after_all new two_transactions).committed_set ≡ true)
    ↔ (status_at (after_all new two_transactions).txns 1 ≡ some committed)
committed_set-exact_example = committed_set-exact two_transactions 1 (omega arith)

-- The lock of key 2 is taken when transaction 3 tries to write it.
abbrev blocked_writer : List Call
blocked_writer = two_transactions ++ begins ∷ writes 3 2 4 ∷ []

write_sets_disjoint_example : ¬ ActiveWriter (after_all new blocked_writer) 3 2
unfolding after_all contains
write_sets_disjoint_example =
    write_sets_disjoint blocked_writer 2 3 2 (λ e. ground arith)
      ((unwrap_or (new_txn 0) (lookup 2 (after_all new blocked_writer).txns)), refl, refl, refl)

-- Two concurrent transactions both commit a write of key 1.
abbrev lost_update : List Call
lost_update = begins ∷ begins ∷ writes 1 1 7 ∷ commits 1 ∷ writes 2 1 8 ∷ []

lost_update_commits : (commit_txn (after_all new lost_update) 2).1 ≡ true
unfolding after_all commit_txn
lost_update_commits = refl

-- Transaction 1 reads key 1, which transaction 2 then overwrites and commits; transaction 3 starts;
-- transaction 1 writes key 2 and commits; transaction 3 sees the write of 2 and not that of 1, though
-- 1 has to come before 2. The read sets the second flag of transaction 1, which has committed.
abbrev read_only_anomaly : List Call
read_only_anomaly =
    begins
    ∷ begins
    ∷ reads 1 1
    ∷ writes 2 1 5
    ∷ commits 2
    ∷ begins
    ∷ writes 1 2 6
    ∷ commits 1
    ∷ reads 3 1
    ∷ []

read_only_anomaly_commits :
    ((read_key (after_all new read_only_anomaly) 3 1).1 ≡ some 5)
    × ((read_key (after_all new read_only_anomaly) 3 2).1 ≡ none)
    × (status_at (read_key (after_all new read_only_anomaly) 3 2).0.txns 1 ≡ some committed)
    × (get_conflict_flags (read_key (after_all new read_only_anomaly) 3 2).0 1 ≡ (true, true))
    × ((commit_txn (read_key (after_all new read_only_anomaly) 3 2).0 3).1 ≡ true)
unfolding after_all get_conflict_flags read_key commit_txn
read_only_anomaly_commits = (refl, refl, refl, refl, refl)
