-- ===== src/Store/Calls.antt =====
-- crates/vf-examples/src/ssi.rs: the operations of `SsiStore`, each under the mutex from its first
-- line to its last, as functions on the state.
use verified_concurrent.Base.{
  ℕ, ◌+◌, Bool, true, false, ◌&&◌, ◌||◌, not, Option, none, some, List, [], ◌∷◌, ◌==◌, ltb,
  if◌then◌else◌, is_empty, is_some, same_option, flatten, retain, map,
}
use mathlib.Core.Option
use verified_concurrent.Base.Sets.{set_insert, set_remove}
use verified_concurrent.Base.Maps.{Map, lookup, insert, get_or, map_values}
use verified_concurrent.Store.State.{
  TxnStatus, committed, aborted, is_active, Version, TxnState, new_txn, has_dangerous_structure,
  SsiInner, pending, wrap, update,
}
use verified_concurrent.Store.Queries.{
  versions_of, visible_version, concurrent_readers, newer_writers,
}

abbrev pub set_in : TxnState → TxnState
set_in st = record st { in_conflict = true }

abbrev pub set_out : TxnState → TxnState
set_out st = record st { out_conflict = true }

abbrev pub set_status : TxnStatus → TxnState → TxnState
set_status c st = record st { status = c }

-- `for &x in xs { if let Some(state) = txns.get_mut(&x) { .. } }`
unfoldable pub update_each : (TxnState → TxnState) → List ℕ → Map TxnState → Map TxnState
unfolding update
update_each f [] m = m
update_each f (x ∷ xs) m = update_each f xs (update x f m)

-- `begin`
unfoldable pub begin_txn : SsiInner → SsiInner × ℕ
unfolding insert
begin_txn s = (
  record s {
    next_txn = wrap (s.next_txn + 1);
    timestamp = wrap (s.timestamp + 1);
    txns = insert s.next_txn (new_txn s.timestamp) s.txns;
  },
  s.next_txn,
)

abbrev pub note_read : ℕ → TxnState → TxnState
note_read key st = record st { read_set = set_insert key st.read_set }

-- The transactions after a read that found the given newer writers.
unfoldable pub read_txns : Map TxnState → ℕ → ℕ → List ℕ → Map TxnState
unfolding update update_each
read_txns m txn key writers =
    let marked = update_each set_in writers m in
    let flagged = (if is_empty writers then marked else update txn set_out marked) in
    update txn (note_read key) flagged

unfoldable pub read_active : SsiInner → ℕ → ℕ → ℕ → SsiInner
unfolding read_txns newer_writers insert lookup set_insert
read_active s txn key snapshot_ts = record s {
  txns = read_txns s.txns txn key (newer_writers s txn key snapshot_ts);
  siread_locks = insert key (set_insert txn (get_or [] key s.siread_locks)) s.siread_locks;
}

-- `read`
unfoldable pub read_key : SsiInner → ℕ → ℕ → SsiInner × Option ℕ
unfolding read_active visible_version lookup
read_key s txn key = elim (lookup txn s.txns) [
  | none ↦ (s, none)
  | some st ↦
      if is_active st.status
      then (
        read_active s txn key st.snapshot_ts,
        Option.map (λ v. v.value)
            (visible_version (read_active s txn key st.snapshot_ts) key st.snapshot_ts),
      )
      else (s, none)
]

-- `if reader_state.status == TxnStatus::Active { reader_state.out_conflict = true }`
abbrev pub set_out_if_active : TxnState → TxnState
set_out_if_active st = if is_active st.status then set_out st else st

abbrev pub note_write : ℕ → TxnState → TxnState
note_write key st = record st { write_set = set_insert key st.write_set }

-- The transactions after a write that found the given concurrent readers.
unfoldable pub write_txns : Map TxnState → ℕ → ℕ → List ℕ → Map TxnState
unfolding update update_each
write_txns m txn key readers =
    let marked = update_each set_out_if_active readers m in
    let flagged = (if is_empty readers then marked else update txn set_in marked) in
    update txn (note_write key) flagged

-- The versions of the key with the new pending write on top, in place of an older one.
unfoldable pub write_version : ℕ → ℕ → List Version → List Version
unfolding retain
write_version txn value vs =
    record { value = value; writer_txn = txn; commit_timestamp = pending }
    ∷ retain (λ v. not (v.writer_txn == txn && v.commit_timestamp == pending)) vs

unfoldable pub write_active : SsiInner → ℕ → ℕ → ℕ → SsiInner
unfolding write_txns concurrent_readers insert versions_of write_version
write_active s txn key value = record s {
  txns = write_txns s.txns txn key (concurrent_readers s txn key);
  write_locks = insert key (some txn) s.write_locks;
  data_map = insert key (write_version txn value (versions_of key s.data_map)) s.data_map;
}

-- Whether the write lock of the key is free or held by the transaction.
unfoldable pub may_lock : SsiInner → ℕ → ℕ → Bool
unfolding lookup
may_lock s txn key =
    let holder = flatten (lookup key s.write_locks) in
    not (is_some holder) || same_option holder (some txn)

-- `write`
unfoldable pub write_key : SsiInner → ℕ → ℕ → ℕ → SsiInner × Bool
unfolding write_active may_lock lookup
write_key s txn key value = elim (lookup txn s.txns) [
  | none ↦ (s, false)
  | some st ↦
      if is_active st.status && may_lock s txn key
      then (write_active s txn key value, true)
      else (s, false)
]

-- The loop that releases the write locks of the transaction.
unfoldable pub release_locks : ℕ → List ℕ → Map (Option ℕ) → Map (Option ℕ)
unfolding lookup insert
release_locks txn [] m = m
release_locks txn (k ∷ ks) m =
    release_locks txn ks
      (if same_option (flatten (lookup k m)) (some txn) then insert k none m else m)

-- The loop that removes the versions of the transaction.
unfoldable pub remove_versions : ℕ → List ℕ → Map (List Version) → Map (List Version)
unfolding update retain
remove_versions txn [] m = m
remove_versions txn (k ∷ ks) m =
    remove_versions txn ks (update k (retain (λ v. not (v.writer_txn == txn))) m)

abbrev pub stamp : ℕ → ℕ → Version → Version
stamp txn commit_ts v =
    if v.writer_txn == txn && v.commit_timestamp == pending
    then record v { commit_timestamp = commit_ts }
    else v

-- `versions.sort_by(|a, b| b.commit_timestamp.cmp(&a.commit_timestamp))`, which is stable.
unfoldable pub sort_insert : Version → List Version → List Version
sort_insert v [] = v ∷ []
sort_insert v (w ∷ ws) =
    if ltb v.commit_timestamp w.commit_timestamp then w ∷ sort_insert v ws else v ∷ w ∷ ws

unfoldable pub sort_versions : List Version → List Version
unfolding sort_insert
sort_versions [] = []
sort_versions (v ∷ vs) = sort_insert v (sort_versions vs)

-- The loop that gives the pending writes of the transaction their timestamp.
unfoldable pub stamp_versions : ℕ → ℕ → List ℕ → Map (List Version) → Map (List Version)
unfolding update sort_versions
stamp_versions txn commit_ts [] m = m
stamp_versions txn commit_ts (k ∷ ks) m =
    stamp_versions txn commit_ts ks
      (update k (λ vs. sort_versions (map (stamp txn commit_ts) vs)) m)

-- The abort inside `commit`, which leaves the SIREAD locks.
unfoldable pub abort_in_commit : SsiInner → ℕ → List ℕ → SsiInner
unfolding update release_locks remove_versions
abort_in_commit s txn keys = record s {
  txns = update txn (set_status aborted) s.txns;
  write_locks = release_locks txn keys s.write_locks;
  data_map = remove_versions txn keys s.data_map;
}

unfoldable pub commit_active : SsiInner → ℕ → List ℕ → SsiInner
unfolding update release_locks stamp_versions set_insert
commit_active s txn keys = record s {
  timestamp = wrap (s.timestamp + 1);
  data_map = stamp_versions txn s.timestamp keys s.data_map;
  write_locks = release_locks txn keys s.write_locks;
  txns = update txn (set_status committed) s.txns;
  committed_set = set_insert txn s.committed_set;
}

-- `commit`
unfoldable pub commit_txn : SsiInner → ℕ → SsiInner × Bool
unfolding abort_in_commit commit_active lookup
commit_txn s txn = elim (lookup txn s.txns) [
  | none ↦ (s, false)
  | some st ↦
      if is_active st.status
      then if has_dangerous_structure st
        then (abort_in_commit s txn st.write_set, false)
        else (commit_active s txn st.write_set, true)
      else (s, false)
]

unfoldable pub abort_active : SsiInner → ℕ → List ℕ → SsiInner
unfolding abort_in_commit map_values set_remove
abort_active s txn keys = record (abort_in_commit s txn keys) {
  siread_locks = map_values (set_remove txn) s.siread_locks;
}

-- `abort`
unfoldable pub abort_txn : SsiInner → ℕ → SsiInner
unfolding abort_active lookup
abort_txn s txn = elim (lookup txn s.txns) [
  | none ↦ s
  | some st ↦ if is_active st.status then abort_active s txn st.write_set else s
]

-- `is_active`
unfoldable pub is_active_txn : SsiInner → ℕ → Bool
unfolding lookup
is_active_txn s txn = elim (lookup txn s.txns) [ none ↦ false | some st ↦ is_active st.status ]

-- `get_current_value`
unfoldable pub get_current_value : SsiInner → ℕ → Option ℕ
unfolding visible_version
get_current_value s key = Option.map (λ v. v.value) (visible_version s key s.timestamp)

-- `get_conflict_flags`
unfoldable pub get_conflict_flags : SsiInner → ℕ → Bool × Bool
unfolding lookup
get_conflict_flags s txn = elim (lookup txn s.txns) [
  | none ↦ (false, false)
  | some st ↦ (st.in_conflict, st.out_conflict)
]
