-- ===== src/SsiModel/Safety.antt =====
-- No transaction of the SSI state machine (crates/vf-stateright/src/ssi.rs) commits as the pivot of
-- a dangerous structure, and none becomes one after its commit.
use verified_concurrent.Base.{
  ℕ, ◌≡◌, Bool, true, false, ◌&&◌, not, List, arith, any-false, all-true, all, contains-retain,
}
use verified_concurrent.Base.Maps.{lookup-fill, keys}
use verified_concurrent.SsiModel.State.{
  voluntary, read_conflict, dangerous_structure, SsiState, SsiAction, init, is_committed,
}
use verified_concurrent.SsiModel.Queries.{
  status_of, active_in, committed_in, in_flag, out_flag, has_dangerous_structure, committed_txns,
  concurrent_siread_holders,
}
use verified_concurrent.SsiModel.Apply.{
  read_conflicts, read_would_violate, write_would_violate, abort_with,
}
use verified_concurrent.SsiModel.Steps.{
  Step, began, read_aborted, read_done, write_aborted, write_done, commit_aborted, commit_done,
  abort_done, Reach, start, later, apply-Step,
}
use verified_concurrent.SsiModel.Effects.{
  status-perform_begin, status-abort_with, status-abort_write, status-perform_commit,
  status-release_locks, status-perform_read, status-perform_write, flags-perform_begin,
  flags-abort_with, flags-abort_write, flags-release_locks, flags-perform_commit,
  flags-perform_read, flags-perform_write,
}

-- `SsiState::no_committed_dangerous_structures`
unfoldable pub no_committed_dangerous_structures : SsiState → Bool
unfolding all committed_txns has_dangerous_structure
no_committed_dangerous_structures s =
    all (λ t. not (has_dangerous_structure s t)) (committed_txns s)

-- A committed transaction does not have both flags.
abbrev pub IsSafe : SsiState → Type 0
IsSafe s = (t : ℕ) → committed_in s t ≡ true → has_dangerous_structure s t ≡ false

IsSafe-init : (txns ks : List ℕ) → IsSafe (init txns ks)
unfolding init has_dangerous_structure in_flag out_flag
IsSafe-init txns ks t c = ground (arith, lookup-fill false t txns)

-- The checks of the branches that go on are what keeps the invariant: a committed transaction that
-- gets one flag does not have the other.
Step-IsSafe : {s t : SsiState} {a : SsiAction} → Step s a t → IsSafe s → IsSafe t
unfolding has_dangerous_structure committed_in active_in read_would_violate write_would_violate
Step-IsSafe {s} (began {txn = u} g) v x c =
    ground (arith, v x, flags-perform_begin s u x, status-perform_begin s u x)
Step-IsSafe {s} (read_aborted {txn = u} g h) v x c =
    ground (arith, v x, flags-abort_with read_conflict s u x, status-abort_with read_conflict s u x)
Step-IsSafe {s} (read_done {txn = u} {key = k} g h) v x c = ground (
  arith,
  v x,
  flags-perform_read s u k (read_conflicts s u k) x,
  status-perform_read s u k (read_conflicts s u k) x,
  any-false (λ w. is_committed (status_of s w) && out_flag s w) (read_conflicts s u k) x h,
)
Step-IsSafe {s} (write_aborted {txn = u} {key = k} g l h) v x c =
    ground (arith, v x, flags-abort_write s u k x, status-abort_write s u k x)
Step-IsSafe {s} (write_done {txn = u} {key = k} g l h) v x c = ground (
  arith,
  v x,
  flags-perform_write s u k (concurrent_siread_holders s u k) x,
  status-perform_write s u k (concurrent_siread_holders s u k) x,
  any-false (λ r. is_committed (status_of s r) && in_flag s r) (concurrent_siread_holders s u k) x
      h,
)
Step-IsSafe {s} (commit_aborted {txn = u} g h) v x c = ground (
  arith,
  v x,
  flags-release_locks (abort_with dangerous_structure u s) u x,
  status-release_locks (abort_with dangerous_structure u s) u x,
  flags-abort_with dangerous_structure s u x,
  status-abort_with dangerous_structure s u x,
)
Step-IsSafe {s} (commit_done {txn = u} g h) v x c =
    ground (arith, v x, flags-perform_commit s u x, status-perform_commit s u x)
Step-IsSafe {s} (abort_done {txn = u} g) v x c = ground (
  arith,
  v x,
  flags-release_locks (abort_with voluntary u s) u x,
  status-release_locks (abort_with voluntary u s) u x,
  flags-abort_with voluntary s u x,
  status-abort_with voluntary s u x,
)

pub Reach-IsSafe : {txns ks : List ℕ} {s : SsiState} → Reach txns ks s → IsSafe s
Reach-IsSafe {txns} {ks} start = IsSafe-init txns ks
Reach-IsSafe (later {s} {t} a r e) = Step-IsSafe (apply-Step s t a e) (Reach-IsSafe r)

-- In every state that the actions reach from an initial state, whatever the transactions, the keys
-- and the order of the actions, the check `no_committed_dangerous_structures` succeeds.
pub Reach-no_committed_dangerous_structures :
    {txns ks : List ℕ} {s : SsiState} → Reach txns ks s → no_committed_dangerous_structures s ≡ true
unfolding no_committed_dangerous_structures committed_txns
Reach-no_committed_dangerous_structures {s} r =
    all-true _ (committed_txns s) λ t m.
      ground (arith, Reach-IsSafe r t, contains-retain (committed_in s) (keys s.txn_status) t)
