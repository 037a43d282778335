-- ===== src/TwoPhase/Table.antt =====
-- tools/vf-evolve/tasks/two_phase_commit/initial.rs: the table of transactions and the methods of
-- `TwoPhaseCommit`. A method takes the table and returns it with the result; what a method did
-- before an error stays done. The mutex makes each method one step; `begin` takes its identifier from
-- the counter before it locks the mutex.
use Prim.Native.Nat.{◌^◌, ◌%◌}
use mathlib.Core.Option
use verified_concurrent.Base.{
  ℕ, ◌+◌, ◌==◌, Bool, true, false, Option, none, some, List, [], ◌∷◌, if◌then◌else◌,
}
use verified_concurrent.Base.Maps.{Map, lookup, insert}
use verified_concurrent.TwoPhase.Txn.{
  RmState, TmState, txn_not_found, TmDecision, commit, abort, Result, ok, err, TxnInner, new_txn,
  tm_prepare_txn, rm_prepare_txn, rm_choose_to_abort_txn, tm_commit_txn, tm_abort_txn,
  rm_rcv_commit_txn, rm_rcv_abort_txn,
}

-- `struct TwoPhaseCommit`
pub record TwoPhaseCommit : Type 0 where
  pub rm_ids : List ℕ
  pub txns : Map TxnInner
  pub next_txn_id : ℕ

abbrev pub M : Type 0 → Type 0
M A = TwoPhaseCommit → TwoPhaseCommit × Result A

-- `?`: go on with a value, stop at an error.
abbrev pub resume :
    {A B : Type 0} → TwoPhaseCommit × Result A → (A → M B) → TwoPhaseCommit × Result B
resume (t, ok a) f = f a t
resume (t, err e) f = (t, err e)

infixl 5 ◌>>=◌ ◌>>◌
abbrev pub ◌>>=◌ : {A B : Type 0} → M A → (A → M B) → M B
◌>>=◌ m f t = resume (m t) f

abbrev pub ◌>>◌ : {B : Type 0} → M (Unit {0}) → M B → M B
m >> k = m >>= λ _. k

abbrev pub return : {A : Type 0} → A → M A
return a t = (t, ok a)

-- `TwoPhaseCommit::new`
unfoldable pub new : List ℕ → TwoPhaseCommit
new rm_ids = record { rm_ids = rm_ids; txns = []; next_txn_id = 1 }

-- `TwoPhaseCommit::begin`. The counter is an AtomicU64, and is read and raised before the mutex is
-- locked; here the two are one step. A method that runs between them finds no transaction of that
-- identifier, as it does before the call, and another `begin` gets an identifier of its own.
unfoldable pub begin : M ℕ
unfolding new_txn insert
begin t = (
  record t {
    txns = insert t.next_txn_id (new_txn t.rm_ids) t.txns;
    next_txn_id = (t.next_txn_id + 1) % 2 ^ 64;
  },
  ok t.next_txn_id,
)

unfoldable pub get_tm_state : TwoPhaseCommit → ℕ → Option TmState
unfolding lookup
get_tm_state t id = Option.map (λ x. x.tm_state) (lookup id t.txns)

unfoldable pub get_rm_state : TwoPhaseCommit → ℕ → ℕ → Option RmState
unfolding lookup
get_rm_state t id rm = elim (lookup id t.txns) [ none ↦ none | some x ↦ lookup rm x.rm_states ]

-- What the methods share: find the transaction or fail, and write it back unless the rest fails.
unfoldable pub on_txn : ℕ → (TxnInner → Result TxnInner) → M (Unit {0})
unfolding lookup insert
on_txn id f t = elim (lookup id t.txns) [
  | none ↦ (t, err txn_not_found)
  | some x ↦ elim (f x) [
    | ok y ↦ (record t { txns = insert id y t.txns }, ok tt)
    | err e ↦ (t, err e)
  ]
]

unfoldable pub tm_prepare : ℕ → M (Unit {0})
unfolding on_txn tm_prepare_txn
tm_prepare id = on_txn id tm_prepare_txn

unfoldable pub rm_prepare : ℕ → ℕ → M (Unit {0})
unfolding on_txn rm_prepare_txn
rm_prepare id rm = on_txn id (rm_prepare_txn rm)

unfoldable pub rm_choose_to_abort : ℕ → ℕ → M (Unit {0})
unfolding on_txn rm_choose_to_abort_txn
rm_choose_to_abort id rm = on_txn id (rm_choose_to_abort_txn rm)

unfoldable pub tm_commit : ℕ → M (Unit {0})
unfolding on_txn tm_commit_txn
tm_commit id = on_txn id tm_commit_txn

unfoldable pub tm_abort : ℕ → M (Unit {0})
unfolding on_txn tm_abort_txn
tm_abort id = on_txn id tm_abort_txn

unfoldable pub rm_rcv_commit : ℕ → ℕ → M (Unit {0})
unfolding on_txn rm_rcv_commit_txn
rm_rcv_commit id rm = on_txn id (rm_rcv_commit_txn rm)

unfoldable pub rm_rcv_abort : ℕ → ℕ → M (Unit {0})
unfolding on_txn rm_rcv_abort_txn
rm_rcv_abort id rm = on_txn id (rm_rcv_abort_txn rm)

-- `for &rm in &rm_ids { f(rm)?; }`
unfoldable pub for_each : List ℕ → (ℕ → M (Unit {0})) → M (Unit {0})
for_each [] f = return tt
for_each (rm ∷ rms) f = do f rm; for_each rms f

-- `TwoPhaseCommit::run_commit`
unfoldable pub run_commit : ℕ → M TmDecision
unfolding tm_prepare rm_prepare tm_commit rm_rcv_commit for_each
run_commit id t =
    (do
      tm_prepare id
      for_each t.rm_ids (rm_prepare id)
      tm_commit id
      for_each t.rm_ids (rm_rcv_commit id)
      return commit)
      t

-- The vote of one resource manager in `run_abort`.
unfoldable pub vote : ℕ → ℕ → ℕ → M (Unit {0})
unfolding rm_choose_to_abort rm_prepare
vote id aborting_rm rm = if rm == aborting_rm then rm_choose_to_abort id rm else rm_prepare id rm

-- `state == Some(RmState::Aborted)`
abbrev pub is_aborted : Option RmState → Bool
is_aborted (some RmState.aborted) = true
is_aborted _ = false

-- The delivery to one resource manager in `run_abort`.
unfoldable pub deliver_abort : ℕ → ℕ → M (Unit {0})
unfolding get_rm_state rm_rcv_abort
deliver_abort id rm t =
    if is_aborted (get_rm_state t id rm) then (t, ok tt) else rm_rcv_abort id rm t

-- `TwoPhaseCommit::run_abort`
unfoldable pub run_abort : ℕ → ℕ → M TmDecision
unfolding tm_prepare vote tm_abort deliver_abort for_each
run_abort id aborting_rm t =
    (do
      tm_prepare id
      for_each t.rm_ids (vote id aborting_rm)
      tm_abort id
      for_each t.rm_ids (deliver_abort id)
      return abort)
      t
