-- ===== src/Store/Queries.antt =====
-- crates/vf-examples/src/ssi.rs: what an operation of the store reads before it changes anything.
use verified_concurrent.Base.{
  ℕ, Bool, false, ◌&&◌, ◌||◌, not, Option, none, some, List, [], ◌∷◌, ◌==◌, ltb, leb, if◌then◌else◌,
}
use verified_concurrent.Base.Sets.{set_insert}
use verified_concurrent.Base.Maps.{Map, lookup, get_or}
use verified_concurrent.Store.State.{
  TxnStatus, is_active, is_committed, Version, TxnState, SsiInner, pending,
}

abbrev pub status_in : Option TxnState → Option TxnStatus
status_in none = none
status_in (some st) = some st.status

abbrev pub status_at : Map TxnState → ℕ → Option TxnStatus
status_at txns t = status_in (lookup t txns)

-- Active or committed, of a transaction that there is.
abbrev pub is_live : Option TxnState → Bool
is_live none = false
is_live (some st) = is_active st.status || is_committed st.status

-- The versions of a key, newest first; a key that is not in the map has none.
unfoldable pub versions_of : ℕ → Map (List Version) → List Version
unfolding lookup
versions_of k m = get_or [] k m

-- The loop of `visible_version`
unfoldable pub visible_in : List Version → ℕ → Option Version
visible_in [] snapshot_ts = none
visible_in (ver ∷ vs) snapshot_ts =
    if leb ver.commit_timestamp snapshot_ts && not (ver.commit_timestamp == pending)
    then some ver
    else visible_in vs snapshot_ts

-- `SsiInner::visible_version`
unfoldable pub visible_version : SsiInner → ℕ → ℕ → Option Version
unfolding visible_in versions_of
visible_version s key snapshot_ts = visible_in (versions_of key s.data_map) snapshot_ts

-- The loop of `concurrent_readers`
unfoldable pub readers_in : Map TxnState → ℕ → List ℕ → List ℕ
unfolding lookup set_insert
readers_in txns txn [] = []
readers_in txns txn (h ∷ hs) =
    let rest = readers_in txns txn hs in
    if not (h == txn) && is_live (lookup h txns) then set_insert h rest else rest

-- `SsiInner::concurrent_readers`
unfoldable pub concurrent_readers : SsiInner → ℕ → ℕ → List ℕ
unfolding readers_in lookup
concurrent_readers s txn key = readers_in s.txns txn (get_or [] key s.siread_locks)

-- The loop of `newer_writers`
unfoldable pub writers_in : Map TxnState → ℕ → ℕ → List Version → List ℕ
unfolding lookup set_insert
writers_in txns txn snapshot_ts [] = []
writers_in txns txn snapshot_ts (ver ∷ vs) =
    let rest = writers_in txns txn snapshot_ts vs in
    if not (ver.writer_txn == txn)
      && (ltb snapshot_ts ver.commit_timestamp && is_live (lookup ver.writer_txn txns))
    then set_insert ver.writer_txn rest
    else rest

-- `SsiInner::newer_writers`
unfoldable pub newer_writers : SsiInner → ℕ → ℕ → ℕ → List ℕ
unfolding writers_in versions_of
newer_writers s txn key snapshot_ts = writers_in s.txns txn snapshot_ts (versions_of key s.data_map)
