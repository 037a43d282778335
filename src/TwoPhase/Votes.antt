-- ===== src/TwoPhase/Votes.antt =====
-- The votes of one transaction of two-phase commit, tools/vf-evolve/tasks/two_phase_commit/initial.rs:
-- which states of the two kinds of manager go together, and that each method keeps it so.
use verified_concurrent.Base.{
  ℕ, ◌≡◌, Bool, true, false, ◌&&◌, ◌||◌, not, Option, none, some, List, arith, contains, all-elim,
  is_some,
}
use verified_concurrent.Base.Sets.{contains-set_insert}
use verified_concurrent.Base.Maps.{lookup, keys, lookup-insert, lookup-fill, contains-keys}
use verified_concurrent.TwoPhase.Txn.{
  RmState, TmState, ok, TxnInner, new_txn, tm_prepare_txn, rm_prepare_txn, rm_choose_to_abort_txn,
  same_set, tm_commit_txn, tm_abort_txn, rm_rcv_commit_txn, rm_rcv_abort_txn,
}

abbrev pub decided_commit : TmState → Bool
decided_commit TmState.committed = true
decided_commit _ = false

abbrev pub decided_abort : TmState → Bool
decided_abort TmState.aborted = true
decided_abort _ = false

-- The states of a resource manager that go with the state of the transaction manager and with its
-- vote: whether it is in the prepared set.
abbrev pub fits : TmState → Bool → Option RmState → Bool
fits tm voted none = not voted
fits tm voted (some RmState.working) = not voted && not (decided_commit tm)
fits tm voted (some RmState.prepared) = voted
fits tm voted (some RmState.committed) = decided_commit tm
fits tm voted (some RmState.aborted) = not (decided_commit tm) && (not voted || decided_abort tm)

abbrev pub Fits : TxnInner → ℕ → Type 0
Fits x r = fits x.tm_state (contains r x.prepared_set) (lookup r x.rm_states) ≡ true

pub new_txn-Fits : (rm_ids : List ℕ) (r : ℕ) → Fits (new_txn rm_ids) r
unfolding new_txn contains
new_txn-Fits rm_ids r = ground (arith, lookup-fill RmState.working r rm_ids)

pub tm_prepare-Fits :
    (x : TxnInner) {y : TxnInner} (r : ℕ) → tm_prepare_txn x ≡ ok y → Fits x r → Fits y r
unfolding tm_prepare_txn
tm_prepare-Fits x r e f = ground arith

pub rm_prepare-Fits :
    (rm : ℕ) (x : TxnInner) {y : TxnInner} (r : ℕ)
    → rm_prepare_txn rm x ≡ ok y
    → Fits x r
    → Fits x rm
    → Fits y r
unfolding rm_prepare_txn
rm_prepare-Fits rm x r e f g = ground (
  arith,
  lookup-insert rm r RmState.prepared x.rm_states,
  contains-set_insert rm x.prepared_set r,
)

pub rm_choose_to_abort-Fits :
    (rm : ℕ) (x : TxnInner) {y : TxnInner} (r : ℕ)
    → rm_choose_to_abort_txn rm x ≡ ok y
    → Fits x r
    → Fits y r
unfolding rm_choose_to_abort_txn
rm_choose_to_abort-Fits rm x r e f = ground (arith, lookup-insert rm r RmState.aborted x.rm_states)

same_set-voted :
    (x : TxnInner) (r : ℕ)
    → same_set x.prepared_set (keys x.rm_states) ≡ true
    → is_some (lookup r x.rm_states) ≡ true
    → contains r x.prepared_set ≡ true
unfolding same_set
same_set-voted x r e k =
    all-elim (λ a. contains a x.prepared_set) (keys x.rm_states) r (ground arith)
      (ground (arith, contains-keys r x.rm_states))

pub tm_commit-Fits :
    (x : TxnInner) {y : TxnInner} (r : ℕ) → tm_commit_txn x ≡ ok y → Fits x r → Fits y r
unfolding tm_commit_txn
tm_commit-Fits x r e f = ground (arith, same_set-voted x r)

pub tm_abort-Fits :
    (x : TxnInner) {y : TxnInner} (r : ℕ) → tm_abort_txn x ≡ ok y → Fits x r → Fits y r
unfolding tm_abort_txn
tm_abort-Fits x r e f = ground arith

pub rm_rcv_commit-Fits :
    (rm : ℕ) (x : TxnInner) {y : TxnInner} (r : ℕ)
    → rm_rcv_commit_txn rm x ≡ ok y
    → Fits x r
    → Fits y r
unfolding rm_rcv_commit_txn
rm_rcv_commit-Fits rm x r e f = ground (arith, lookup-insert rm r RmState.committed x.rm_states)

pub rm_rcv_abort-Fits :
    (rm : ℕ) (x : TxnInner) {y : TxnInner} (r : ℕ)
    → rm_rcv_abort_txn rm x ≡ ok y
    → Fits x r
    → Fits y r
unfolding rm_rcv_abort_txn
rm_rcv_abort-Fits rm x r e f = ground (arith, lookup-insert rm r RmState.aborted x.rm_states)
