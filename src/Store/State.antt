-- ===== src/Store/State.antt =====
-- crates/vf-examples/src/ssi.rs: the state of the store behind its mutex. Identifiers, keys, values
-- and timestamps (u64) are numbers; the two counters wrap at 2 ^ 64.
use verified_concurrent.Base.{
  ℕ, ◌%◌, ◌<◌, ◌≡◌, Bool, true, false, ◌&&◌, Option, none, some, List, [], arith, ◌==◌,
  if◌then◌else◌, Option-cases, inl, inr,
}
use mathlib.Core.Option
use verified_concurrent.Base.Maps.{Map, lookup, insert, lookup-insert}

-- `enum TxnStatus`
pub data TxnStatus : Type 0 where
  active : TxnStatus
  committed : TxnStatus
  aborted : TxnStatus

abbrev pub is_active : TxnStatus → Bool
is_active active = true
is_active _ = false

abbrev pub is_committed : TxnStatus → Bool
is_committed committed = true
is_committed _ = false

-- `struct Version`
pub record Version : Type 0 where
  pub value : ℕ
  pub writer_txn : ℕ
  pub commit_timestamp : ℕ

-- `u64::MAX`, the timestamp of a write that is not committed yet.
abbrev pub pending : ℕ
pending = 18446744073709551615

abbrev pub wrap : ℕ → ℕ
wrap n = n % 18446744073709551616

-- `struct TxnState`
pub record TxnState : Type 0 where
  pub status : TxnStatus
  pub snapshot_ts : ℕ
  pub write_set : List ℕ
  pub read_set : List ℕ
  pub in_conflict : Bool
  pub out_conflict : Bool

-- `TxnState::new`
abbrev pub new_txn : ℕ → TxnState
new_txn snapshot_ts = record {
  status = active;
  snapshot_ts = snapshot_ts;
  write_set = [];
  read_set = [];
  in_conflict = false;
  out_conflict = false;
}

-- `TxnState::has_dangerous_structure`
abbrev pub has_dangerous_structure : TxnState → Bool
has_dangerous_structure st = st.in_conflict && st.out_conflict

-- `struct SsiInner`
pub record SsiInner : Type 0 where
  pub timestamp : ℕ
  pub next_txn : ℕ
  pub txns : Map TxnState
  pub write_locks : Map (Option ℕ)
  pub siread_locks : Map (List ℕ)
  pub data_map : Map (List Version)
  pub committed_set : List ℕ

-- `SsiInner::new`
abbrev pub new : SsiInner
new = record {
  timestamp = 1;
  next_txn = 1;
  txns = [];
  write_locks = [];
  siread_locks = [];
  data_map = [];
  committed_set = [];
}

-- `if let Some(x) = m.get_mut(&k) { *x = f(*x) }`
unfoldable pub update {ℓ} : {V : Type ℓ} → ℕ → (V → V) → Map V → Map V
unfolding lookup insert
update k f m = elim (lookup k m) [ none ↦ m | some v ↦ insert k (f v) m ]

pub lookup-update {ℓ} :
    {V : Type ℓ} (k : ℕ) (f : V → V) (m : Map V) (j : ℕ)
    → lookup j (update k f m) ≡ (if j == k then Option.map f (lookup j m) else lookup j m)
unfolding update
lookup-update k f m j = elim (Option-cases (lookup k m)) [
  | inl e ↦ ground (arith)
  | inr (v, e) ↦ ground (arith, lookup-insert k j (f v) m)
]

pub wrap_small : (n : ℕ) → n < 18446744073709551616 → wrap n ≡ n
wrap_small n l = omega arith
