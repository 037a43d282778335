-- ===== src/SsiModel/Apply.antt =====
-- crates/vf-stateright/src/ssi.rs: the actions and `SsiState::apply`, one function for each arm.
use verified_concurrent.Base.{
  ℕ, ◌+◌, ◌-◌, Bool, true, false, ◌&&◌, ◌||◌, not, Option, none, some, List, [], ◌∷◌, ◌++◌,
  same_option, if◌then◌else◌, any, is_empty, is_some,
}
use verified_concurrent.Base.Sets.{set_insert, set_remove}
use verified_concurrent.Base.Maps.{Map, lookup, insert, get_or, map_values}
use verified_concurrent.SsiModel.State.{
  not_started, active, committed, aborted, AbortReason, voluntary, read_conflict, write_conflict,
  dangerous_structure, begin, read, write, commit, abort, SsiState, SsiAction, begins, reads,
  writes, commits, aborts, now,
}
use verified_concurrent.SsiModel.Queries.{
  active_in, committed_in, in_flag, out_flag, lock_holder, latest_version, has_dangerous_structure,
  newer_writers, concurrent_siread_holders,
}

-- `for &t in ts { flags.insert(t, true) }`
unfoldable pub set_flags : List ℕ → Map Bool → Map Bool
unfolding insert
set_flags [] m = m
set_flags (t ∷ ts) m = set_flags ts (insert t true m)

-- `if !ts.is_empty() { flags.insert(txn, true) }`
unfoldable pub set_flag_if_any : List ℕ → ℕ → Map Bool → Map Bool
unfolding insert
set_flag_if_any ts txn m = if is_empty ts then m else insert txn true m

-- The part that every abort shares: the entry of the history, the status, the two flags and the
-- SIREAD locks.
unfoldable pub abort_with : AbortReason → ℕ → SsiState → SsiState
unfolding insert map_values set_remove
abort_with why txn s = record s {
  history = s.history ++ abort txn why ∷ [];
  txn_status = insert txn aborted s.txn_status;
  siread_locks = map_values (set_remove txn) s.siread_locks;
  in_conflict = insert txn false s.in_conflict;
  out_conflict = insert txn false s.out_conflict;
}

-- `if *lock == Some(*txn) { *lock = None; }`
unfoldable pub release_lock : ℕ → Option ℕ → Option ℕ
release_lock txn l = if same_option l (some txn) then none else l

-- `for lock in next.write_locks.values_mut()`
unfoldable pub release_locks : ℕ → SsiState → SsiState
unfolding map_values release_lock
release_locks txn s = record s { write_locks = map_values (release_lock txn) s.write_locks }

-- The effect of `Begin`: the snapshot is the time before its own entry.
unfoldable pub perform_begin : SsiState → ℕ → SsiState
unfolding insert now
perform_begin s txn = record s {
  history = s.history ++ begin txn ∷ [];
  txn_status = insert txn active s.txn_status;
  txn_snapshot = insert txn (now s + 1 - 1) s.txn_snapshot;
}

unfoldable pub apply_begin : SsiState → ℕ → Option SsiState
unfolding perform_begin lookup
apply_begin s txn = elim (lookup txn s.txn_status) [
  | some not_started ↦ some (perform_begin s txn)
  | _ ↦ none
]

-- The version that a read of `key` returns.
unfoldable pub read_version : SsiState → ℕ → ℕ → Option ℕ
unfolding lock_holder latest_version lookup
read_version s txn key =
    if same_option (lock_holder s key) (some txn)
    then some txn
    else latest_version s key (get_or 0 txn s.txn_snapshot)

-- A committed writer that has an outgoing conflict would become a dangerous structure.
unfoldable pub read_would_violate : SsiState → List ℕ → Bool
unfolding any committed_in out_flag
read_would_violate s = any (λ w. committed_in s w && out_flag s w)

-- The branch of `Read` that performs the read.
unfoldable pub perform_read : SsiState → ℕ → ℕ → List ℕ → SsiState
unfolding insert set_insert set_flags set_flag_if_any read_version lookup
perform_read s txn key writers = record s {
  history = s.history ++ read txn key (read_version s txn key) ∷ [];
  siread_locks = insert key (set_insert txn (get_or [] key s.siread_locks)) s.siread_locks;
  in_conflict = set_flags writers s.in_conflict;
  out_conflict = set_flag_if_any writers txn s.out_conflict;
}

-- The writers whose later writes a read of `key` by `txn` conflicts with.
unfoldable pub read_conflicts : SsiState → ℕ → ℕ → List ℕ
unfolding newer_writers lookup
read_conflicts s txn key = newer_writers s key (get_or 0 txn s.txn_snapshot) txn

unfoldable pub apply_read : SsiState → ℕ → ℕ → Option SsiState
unfolding active_in read_conflicts read_would_violate abort_with perform_read
apply_read s txn key =
    if active_in s txn
    then some (
        if read_would_violate s (read_conflicts s txn key)
        then abort_with read_conflict txn s
        else perform_read s txn key (read_conflicts s txn key))
    else none

-- A committed reader that has an incoming conflict would become a dangerous structure.
unfoldable pub write_would_violate : SsiState → List ℕ → Bool
unfolding any committed_in in_flag
write_would_violate s = any (λ r. committed_in s r && in_flag s r)

-- The branch of `Write` that aborts: only the lock of `key` is released.
unfoldable pub abort_write : SsiState → ℕ → ℕ → SsiState
unfolding insert abort_with lock_holder
abort_write s txn key =
    if same_option (lock_holder s key) (some txn)
    then record (abort_with write_conflict txn s) { write_locks = insert key none s.write_locks }
    else abort_with write_conflict txn s

-- The branch of `Write` that performs the write.
unfoldable pub perform_write : SsiState → ℕ → ℕ → List ℕ → SsiState
unfolding insert set_flags set_flag_if_any
perform_write s txn key readers = record s {
  history = s.history ++ write txn key ∷ [];
  write_locks = insert key (some txn) s.write_locks;
  out_conflict = set_flags readers s.out_conflict;
  in_conflict = set_flag_if_any readers txn s.in_conflict;
}

-- The lock is free, or `txn` holds it.
unfoldable pub may_lock : SsiState → ℕ → ℕ → Bool
unfolding lock_holder
may_lock s txn key = not (is_some (lock_holder s key)) || same_option (lock_holder s key) (some txn)

unfoldable pub apply_write : SsiState → ℕ → ℕ → Option SsiState
unfolding active_in may_lock concurrent_siread_holders write_would_violate abort_write perform_write
apply_write s txn key =
    if active_in s txn && may_lock s txn key
    then some (
        if write_would_violate s (concurrent_siread_holders s txn key)
        then abort_write s txn key
        else perform_write s txn key (concurrent_siread_holders s txn key))
    else none

-- The branch of `Commit` that commits. SIREAD locks persist.
unfoldable pub perform_commit : SsiState → ℕ → SsiState
unfolding insert release_locks
perform_commit s txn = release_locks txn (record s {
  history = s.history ++ commit txn ∷ [];
  txn_status = insert txn committed s.txn_status;
})

unfoldable pub apply_commit : SsiState → ℕ → Option SsiState
unfolding active_in has_dangerous_structure release_locks abort_with perform_commit
apply_commit s txn =
    if active_in s txn
    then some (
        if has_dangerous_structure s txn
        then release_locks txn (abort_with dangerous_structure txn s)
        else perform_commit s txn)
    else none

unfoldable pub apply_abort : SsiState → ℕ → Option SsiState
unfolding active_in release_locks abort_with
apply_abort s txn =
    if active_in s txn then some (release_locks txn (abort_with voluntary txn s)) else none

-- `SsiState::apply`; `none` is an action that is not enabled.
unfoldable pub apply : SsiState → SsiAction → Option SsiState
unfolding apply_begin apply_read apply_write apply_commit apply_abort
apply s (begins txn) = apply_begin s txn
apply s (reads txn key) = apply_read s txn key
apply s (writes txn key) = apply_write s txn key
apply s (commits txn) = apply_commit s txn
apply s (aborts txn) = apply_abort s txn

-- A run of actions; `none` at the first that is not enabled.
unfoldable pub run : SsiState → List SsiAction → Option SsiState
unfolding apply
run s [] = some s
run s (a ∷ rest) = elim (apply s a) [ none ↦ none | some t ↦ run t rest ]
