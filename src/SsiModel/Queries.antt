-- ===== src/SsiModel/Queries.antt =====
-- crates/vf-stateright/src/ssi.rs: what the state machine asks of its state. Loops over the
-- enumerated history carry the index of the entry at hand.
use verified_concurrent.Base.{
  ℕ, ◌+◌, Bool, false, ◌&&◌, ◌||◌, not, Option, none, some, List, [], ◌∷◌, ◌==◌, ltb, if◌then◌else◌,
  flatten, retain, contains,
}
use verified_concurrent.Base.Sets.{set_insert}
use verified_concurrent.Base.Maps.{lookup, keys, get_or}
use verified_concurrent.SsiModel.State.{
  TxnStatus, not_started, Operation, write, commit, SsiState, is_active, is_committed,
}

-- `self.txn_status.get(&t).copied().unwrap_or(NotStarted)`
unfoldable pub status_of : SsiState → ℕ → TxnStatus
unfolding lookup
status_of s t = get_or not_started t s.txn_status

-- `next.txn_status.get(txn) == Some(&TxnStatus::Active)`
unfoldable pub active_in : SsiState → ℕ → Bool
unfolding status_of
active_in s t = is_active (status_of s t)

unfoldable pub committed_in : SsiState → ℕ → Bool
unfolding status_of
committed_in s t = is_committed (status_of s t)

-- `self.in_conflict.get(&t).copied().unwrap_or(false)`, and the same of `out_conflict`
unfoldable pub in_flag : SsiState → ℕ → Bool
unfolding lookup
in_flag s t = get_or false t s.in_conflict

unfoldable pub out_flag : SsiState → ℕ → Bool
unfolding lookup
out_flag s t = get_or false t s.out_conflict

-- `self.write_locks.get(key).copied().flatten()`
unfoldable pub lock_holder : SsiState → ℕ → Option ℕ
unfolding lookup
lock_holder s k = flatten (lookup k s.write_locks)

-- `SsiState::committed_txns`
unfoldable pub committed_txns : SsiState → List ℕ
unfolding keys retain committed_in
committed_txns s = retain (committed_in s) (keys s.txn_status)

-- The match in the loop of `latest_version`: the writer of an entry that counts, else the one found
-- before. An entry has a greater index than the one found before it.
unfoldable pub newest : SsiState → ℕ → Option ℕ → Operation → Option ℕ
unfolding committed_txns contains
newest s key latest (write txn k) =
    if k == key && contains txn (committed_txns s) then some txn else latest
newest s key latest _ = latest

-- The loop of `latest_version` from index `i`, with the writer found so far.
unfoldable pub latest_from : SsiState → ℕ → ℕ → ℕ → Option ℕ → List Operation → Option ℕ
unfolding newest
latest_from s key snapshot i latest [] = latest
latest_from s key snapshot i latest (op ∷ ops) =
    let rest = latest_from s key snapshot (i + 1) (newest s key latest op) ops in
    if ltb snapshot i then latest else rest

-- `SsiState::latest_version`
unfoldable pub latest_version : SsiState → ℕ → ℕ → Option ℕ
unfolding latest_from
latest_version s key snapshot = latest_from s key snapshot 0 none s.history

-- `SsiState::has_dangerous_structure`
unfoldable pub has_dangerous_structure : SsiState → ℕ → Bool
unfolding in_flag out_flag
has_dangerous_structure s t = in_flag s t && out_flag s t

-- The iterator of `newer_writers` from index `i`.
unfoldable pub newer_from : SsiState → ℕ → ℕ → ℕ → ℕ → List Operation → List ℕ
unfolding set_insert active_in committed_in
newer_from s key after txn i [] = []
newer_from s key after txn i (write t k ∷ ops) =
    let rest = newer_from s key after txn (i + 1) ops in
    if k == key && (not (t == txn) && (ltb after i && (active_in s t || committed_in s t)))
    then set_insert t rest
    else rest
newer_from s key after txn i (_ ∷ ops) = newer_from s key after txn (i + 1) ops

-- `SsiState::newer_writers`
unfoldable pub newer_writers : SsiState → ℕ → ℕ → ℕ → List ℕ
unfolding newer_from
newer_writers s key after txn = newer_from s key after txn 0 s.history

-- Whether `holder` has a commit at an index above `start`.
unfoldable pub commits_after : ℕ → ℕ → ℕ → List Operation → Bool
commits_after holder start i [] = false
commits_after holder start i (commit t ∷ ops) =
    (t == holder && ltb start i) || commits_after holder start (i + 1) ops
commits_after holder start i (_ ∷ ops) = commits_after holder start (i + 1) ops

-- The filter of `concurrent_siread_holders`.
unfoldable pub conflicts_with : SsiState → ℕ → ℕ → Bool
unfolding lookup active_in committed_in commits_after
conflicts_with s txn holder =
    not (holder == txn)
    && (active_in s holder
        || (committed_in s holder
            && commits_after holder (get_or 0 txn s.txn_snapshot) 0 s.history))

-- `SsiState::concurrent_siread_holders`
unfoldable pub concurrent_siread_holders : SsiState → ℕ → ℕ → List ℕ
unfolding retain conflicts_with lookup
concurrent_siread_holders s txn key = retain (conflicts_with s txn) (get_or [] key s.siread_locks)
