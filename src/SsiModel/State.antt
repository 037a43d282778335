-- ===== src/SsiModel/State.antt =====
-- crates/vf-stateright/src/ssi.rs: the types of the state machine and its initial state.
-- Transaction and key identifiers (u8) and timestamps (u64) are numbers; a timestamp is a length of
-- the history and no operation overflows it.
use verified_concurrent.Base.{ℕ, Bool, false, Option, none, List, [], length}
use verified_concurrent.Base.Maps.{Map, fill}

-- `enum TxnStatus`
pub data TxnStatus : Type 0 where
  not_started active committed aborted : TxnStatus

-- `enum AbortReason`
pub data AbortReason : Type 0 where
  voluntary read_conflict write_conflict dangerous_structure : AbortReason

-- `enum Operation`: an entry of the history.
pub data Operation : Type 0 where
  begin : ℕ → Operation
  read : ℕ → ℕ → Option ℕ → Operation
  write : ℕ → ℕ → Operation
  commit : ℕ → Operation
  abort : ℕ → AbortReason → Operation

-- `enum SsiAction`
pub data SsiAction : Type 0 where
  begins : ℕ → SsiAction
  reads : ℕ → ℕ → SsiAction
  writes : ℕ → ℕ → SsiAction
  commits : ℕ → SsiAction
  aborts : ℕ → SsiAction

-- `struct SsiState`; the history is a vector, oldest entry first.
pub record SsiState : Type 0 where
  pub history : List Operation
  pub txn_status : Map TxnStatus
  pub txn_snapshot : Map ℕ
  pub write_locks : Map (Option ℕ)
  pub siread_locks : Map (List ℕ)
  pub in_conflict : Map Bool
  pub out_conflict : Map Bool

-- `SsiState::new`
unfoldable pub init : List ℕ → List ℕ → SsiState
unfolding fill
init txns keys = record {
  history = [];
  txn_status = fill not_started txns;
  txn_snapshot = fill 0 txns;
  write_locks = fill none keys;
  siread_locks = fill [] keys;
  in_conflict = fill false txns;
  out_conflict = fill false txns;
}

-- `SsiState::now`
unfoldable pub now : SsiState → ℕ
now s = length s.history

-- `status == TxnStatus::X`
abbrev pub is_active : TxnStatus → Bool
is_active active = Bool.true
is_active _ = false

abbrev pub is_committed : TxnStatus → Bool
is_committed committed = Bool.true
is_committed _ = false
