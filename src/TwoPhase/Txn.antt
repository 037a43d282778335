-- ===== src/TwoPhase/Txn.antt =====
-- tools/vf-evolve/tasks/two_phase_commit/initial.rs: the record of one transaction, and what each
-- method does to it once it has found it in the table.
use verified_concurrent.Base.{ℕ, Bool, ◌&&◌, none, some, List, [], if◌then◌else◌, all, contains}
use verified_concurrent.Base.Sets.{set_insert}
use verified_concurrent.Base.Maps.{Map, lookup, insert, keys, fill}

-- `enum RmState`
pub data RmState : Type 0 where
  working prepared committed aborted : RmState

-- `enum TmState`
pub data TmState : Type 0 where
  init preparing committed aborted : TmState

-- `enum TpcError`
pub data TpcError : Type 0 where
  rm_not_found txn_not_found invalid_state already_decided not_all_prepared : TpcError

-- `enum TmDecision`
pub data TmDecision : Type 0 where
  commit abort : TmDecision

-- `Result<A, TpcError>`
pub data Result {ℓ} (A : Type ℓ) : Type ℓ where
  ok : A → Result A
  err : TpcError → Result A

-- `struct TxnInner`
pub record TxnInner : Type 0 where
  pub tm_state : TmState
  pub rm_states : Map RmState
  pub prepared_set : List ℕ

-- The entry that `begin` creates.
unfoldable pub new_txn : List ℕ → TxnInner
unfolding fill
new_txn rm_ids = record { tm_state = init; rm_states = fill working rm_ids; prepared_set = [] }

unfoldable pub tm_prepare_txn : TxnInner → Result TxnInner
tm_prepare_txn x = elim x.tm_state [
  | init ↦ ok (record x { tm_state = preparing })
  | _ ↦ err invalid_state
]

unfoldable pub rm_prepare_txn : ℕ → TxnInner → Result TxnInner
unfolding lookup insert set_insert
rm_prepare_txn rm x = elim (lookup rm x.rm_states) [
  | none ↦ err rm_not_found
  | some working ↦ ok (record x {
    rm_states = insert rm prepared x.rm_states;
    prepared_set = set_insert rm x.prepared_set;
  })
  | some _ ↦ err invalid_state
]

unfoldable pub rm_choose_to_abort_txn : ℕ → TxnInner → Result TxnInner
unfolding lookup insert
rm_choose_to_abort_txn rm x = elim (lookup rm x.rm_states) [
  | none ↦ err rm_not_found
  | some working ↦ ok (record x { rm_states = insert rm aborted x.rm_states })
  | some _ ↦ err invalid_state
]

-- Equality of two sets.
unfoldable pub same_set : List ℕ → List ℕ → Bool
unfolding all contains
same_set xs ys = all (λ a. contains a ys) xs && all (λ a. contains a xs) ys

unfoldable pub tm_commit_txn : TxnInner → Result TxnInner
unfolding same_set keys
tm_commit_txn x = elim x.tm_state [
  | preparing ↦
      if same_set x.prepared_set (keys x.rm_states)
      then ok (record x { tm_state = committed })
      else err not_all_prepared
  | _ ↦ err invalid_state
]

unfoldable pub tm_abort_txn : TxnInner → Result TxnInner
tm_abort_txn x = elim x.tm_state [
  | committed ↦ err already_decided
  | aborted ↦ err already_decided
  | _ ↦ ok (record x { tm_state = aborted })
]

unfoldable pub rm_rcv_commit_txn : ℕ → TxnInner → Result TxnInner
unfolding lookup insert
rm_rcv_commit_txn rm x = elim (lookup rm x.rm_states) [
  | none ↦ err rm_not_found
  | some _ ↦ elim x.tm_state [
    | committed ↦ ok (record x { rm_states = insert rm committed x.rm_states })
    | _ ↦ err invalid_state
  ]
]

unfoldable pub rm_rcv_abort_txn : ℕ → TxnInner → Result TxnInner
unfolding lookup insert
rm_rcv_abort_txn rm x = elim (lookup rm x.rm_states) [
  | none ↦ err rm_not_found
  | some _ ↦ elim x.tm_state [
    | aborted ↦ ok (record x { rm_states = insert rm aborted x.rm_states })
    | _ ↦ err invalid_state
  ]
]
