-- ===== src/Checkers/SsiHistory.antt =====
-- crates/vf-core/src/invariants/ssi.rs: the history of a run with serializable snapshot isolation, and
-- the checks of it. A violation has the numbers that its text reports; names and texts are left out.
-- An iteration over a HashMap visits its keys in order.
use verified_concurrent.Base.{
  ℕ, Bool, true, false, ◌&&◌, not, Option, none, some, List, [], ◌∷◌, ◌++◌, unwrap_or, ltb, ◌==◌,
  contains, if◌then◌else◌,
}
use verified_concurrent.Base.Maps.{Map, lookup, insert, get_or}

-- `enum TxnStatus`
pub data TxnStatus : Type 0 where
  active : TxnStatus
  committed : TxnStatus
  aborted : TxnStatus

-- `struct ReadRecord`
pub record ReadRecord : Type 0 where
  pub txn : ℕ
  pub key : ℕ
  pub version : Option ℕ
  pub timestamp : ℕ

-- `struct WriteRecord`
pub record WriteRecord : Type 0 where
  pub txn : ℕ
  pub key : ℕ
  pub timestamp : ℕ

-- `struct SsiHistory`
pub record SsiHistory : Type 0 where
  pub reads : List ReadRecord
  pub writes : List WriteRecord
  pub txn_status : Map TxnStatus
  pub txn_start : Map ℕ
  pub txn_commit : Map ℕ
  pub in_conflict : Map Bool
  pub out_conflict : Map Bool

-- `SsiHistory::new`
abbrev pub empty_history : SsiHistory
empty_history = record {
  reads = [];
  writes = [];
  txn_status = [];
  txn_start = [];
  txn_commit = [];
  in_conflict = [];
  out_conflict = [];
}

-- `begin`, `read`, `write`, `commit` and `abort`
unfoldable pub record_begin : ℕ → ℕ → SsiHistory → SsiHistory
unfolding insert
record_begin txn timestamp h = record h {
  txn_status = insert txn active h.txn_status;
  txn_start = insert txn timestamp h.txn_start;
  in_conflict = insert txn false h.in_conflict;
  out_conflict = insert txn false h.out_conflict;
}

abbrev pub record_read : ℕ → ℕ → Option ℕ → ℕ → SsiHistory → SsiHistory
record_read txn key version timestamp h = record h {
  reads = h.reads ++ record { txn = txn; key = key; version = version; timestamp = timestamp } ∷ [];
}

abbrev pub record_write : ℕ → ℕ → ℕ → SsiHistory → SsiHistory
record_write txn key timestamp h = record h {
  writes = h.writes ++ record { txn = txn; key = key; timestamp = timestamp } ∷ [];
}

unfoldable pub record_commit : ℕ → ℕ → SsiHistory → SsiHistory
unfolding insert
record_commit txn timestamp h = record h {
  txn_status = insert txn committed h.txn_status;
  txn_commit = insert txn timestamp h.txn_commit;
}

unfoldable pub record_abort : ℕ → SsiHistory → SsiHistory
unfolding insert
record_abort txn h = record h {
  txn_status = insert txn aborted h.txn_status;
  in_conflict = insert txn false h.in_conflict;
  out_conflict = insert txn false h.out_conflict;
}

unfoldable pub set_in_conflict : ℕ → SsiHistory → SsiHistory
unfolding insert
set_in_conflict txn h = record h { in_conflict = insert txn true h.in_conflict }

unfoldable pub set_out_conflict : ℕ → SsiHistory → SsiHistory
unfolding insert
set_out_conflict txn h = record h { out_conflict = insert txn true h.out_conflict }

abbrev pub is_committed : TxnStatus → Bool
is_committed committed = true
is_committed _ = false

unfoldable pub committed_in : Map TxnStatus → List ℕ
committed_in [] = []
committed_in ((t, s) ∷ m) = if is_committed s then t ∷ committed_in m else committed_in m

-- `committed_txns`
abbrev pub committed_txns : SsiHistory → List ℕ
committed_txns h = committed_in h.txn_status

-- `were_concurrent`: the lifetimes overlap, where a transaction may not have committed.
abbrev pub overlap : ℕ → ℕ → Option ℕ → Option ℕ → Bool
overlap start1 start2 (some c1) (some c2) = ltb start1 c2 && ltb start2 c1
overlap start1 start2 (some c1) none = ltb start2 c1
overlap start1 start2 none (some c2) = ltb start1 c2
overlap start1 start2 none none = true

unfoldable pub were_concurrent : SsiHistory → ℕ → ℕ → Bool
unfolding lookup
were_concurrent h t1 t2 =
    overlap (get_or 0 t1 h.txn_start) (get_or 0 t2 h.txn_start) (lookup t1 h.txn_commit)
      (lookup t2 h.txn_commit)

-- `struct InvariantResult`
pub record InvariantResult : Type 0 where
  pub holds : Bool
  pub message : Option (List ℕ)

abbrev pub result_of : Option (List ℕ) → InvariantResult
result_of none = record { holds = true; message = none }
result_of (some ns) = record { holds = false; message = some ns }

-- The committed writers of each key, in the order of the writes.
unfoldable pub writers_by_key : List ℕ → List WriteRecord → Map (List ℕ) → Map (List ℕ)
unfolding insert lookup contains
writers_by_key txns [] m = m
writers_by_key txns (w ∷ ws) m =
    writers_by_key txns ws
      (if contains w.txn txns then insert w.key (get_or [] w.key m ++ w.txn ∷ []) m else m)

unfoldable pub find_second : SsiHistory → ℕ → ℕ → List ℕ → Option (List ℕ)
unfolding were_concurrent
find_second h key t1 [] = none
find_second h key t1 (t2 ∷ ts) =
    if were_concurrent h t1 t2 then some (t1 ∷ t2 ∷ key ∷ []) else find_second h key t1 ts

unfoldable pub find_pair : SsiHistory → ℕ → List ℕ → Option (List ℕ)
unfolding find_second
find_pair h key [] = none
find_pair h key (t ∷ ts) = elim (find_second h key t ts) [
  | some ns ↦ some ns
  | none ↦ find_pair h key ts
]

unfoldable pub find_key : SsiHistory → Map (List ℕ) → Option (List ℕ)
unfolding find_pair
find_key h [] = none
find_key h ((key, ts) ∷ m) = elim (find_pair h key ts) [ some ns ↦ some ns | none ↦ find_key h m ]

-- `first_committer_wins`
unfoldable pub first_committer_wins : SsiHistory → InvariantResult
unfolding committed_in writers_by_key find_key
first_committer_wins h = result_of (find_key h (writers_by_key (committed_txns h) h.writes []))

unfoldable pub is_dangerous : SsiHistory → ℕ → Bool
unfolding lookup
is_dangerous h txn = get_or false txn h.in_conflict && get_or false txn h.out_conflict

unfoldable pub find_dangerous : SsiHistory → List ℕ → Option (List ℕ)
unfolding is_dangerous
find_dangerous h [] = none
find_dangerous h (t ∷ ts) = if is_dangerous h t then some (t ∷ []) else find_dangerous h ts

-- `no_committed_dangerous_structures`
unfoldable pub no_committed_dangerous_structures : SsiHistory → InvariantResult
unfolding committed_in find_dangerous
no_committed_dangerous_structures h = result_of (find_dangerous h (committed_txns h))

-- `is_serializable`
unfoldable pub is_serializable : SsiHistory → InvariantResult
unfolding first_committer_wins no_committed_dangerous_structures
is_serializable h =
    if not (first_committer_wins h).holds
    then first_committer_wins h
    else if not (no_committed_dangerous_structures h).holds
    then no_committed_dangerous_structures h
    else result_of none

-- Whether a committed reader that began after the write was committed saw an older version.
abbrev pub saw_older : SsiHistory → ℕ → Option ℕ → Bool
saw_older h write_commit none = false
saw_older h write_commit (some version) = ltb (get_or 0 version h.txn_commit) write_commit

unfoldable pub find_stale : SsiHistory → WriteRecord → List ReadRecord → Option (List ℕ)
unfolding lookup contains committed_in
find_stale h w [] = none
find_stale h w (r ∷ rs) =
    let write_commit = get_or 0 w.txn h.txn_commit in
    if (r.key == w.key && contains r.txn (committed_txns h))
      && (ltb write_commit (get_or 0 r.txn h.txn_start) && saw_older h write_commit r.version)
    then some (r.txn ∷ unwrap_or 0 r.version ∷ r.key ∷ w.txn ∷ [])
    else find_stale h w rs

unfoldable pub find_lost : SsiHistory → List WriteRecord → Option (List ℕ)
unfolding find_stale contains committed_in
find_lost h [] = none
find_lost h (w ∷ ws) =
    let rest = find_lost h ws in
    if contains w.txn (committed_txns h)
    then elim (find_stale h w h.reads) [ some ns ↦ some ns | none ↦ rest ]
    else rest

-- `no_lost_writes`
unfoldable pub no_lost_writes : SsiHistory → InvariantResult
unfolding find_lost
no_lost_writes h = result_of (find_lost h h.writes)

-- `check_all`
unfoldable pub check_all_ssi : SsiHistory → List InvariantResult
unfolding first_committer_wins no_committed_dangerous_structures is_serializable no_lost_writes
check_all_ssi h =
    first_committer_wins h
    ∷ no_committed_dangerous_structures h
    ∷ is_serializable h
    ∷ no_lost_writes h
    ∷ []
