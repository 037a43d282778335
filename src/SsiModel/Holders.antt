-- ===== src/SsiModel/Holders.antt =====
-- The status of the transactions that hold a write lock in the SSI state machine
-- (crates/vf-stateright/src/ssi.rs).
use verified_concurrent.Base.{ℕ, ◌≡◌, ◌≢◌, Bool, true, false, none, some, Option, List, arith}
use verified_concurrent.Base.Maps.{lookup-fill}
use verified_concurrent.SsiModel.State.{
  TxnStatus, not_started, active, committed, aborted, AbortReason, voluntary, dangerous_structure,
  read_conflict, SsiState, SsiAction, init,
}
use verified_concurrent.SsiModel.Queries.{
  status_of, active_in, lock_holder, concurrent_siread_holders,
}
use verified_concurrent.SsiModel.Apply.{abort_with, release_locks, read_conflicts}
use verified_concurrent.SsiModel.Steps.{
  Step, began, read_aborted, read_done, write_aborted, write_done, commit_aborted, commit_done,
  abort_done, apply-Step, Reach, start, later,
}
use verified_concurrent.SsiModel.Effects.{
  status-perform_begin, status-abort_with, status-abort_write, status-perform_commit,
  status-release_locks, status-perform_read, status-perform_write, lock-abort_with,
  lock-perform_begin, lock-perform_read, lock-release_locks, lock-perform_commit, lock-abort_write,
  lock-perform_write,
}

-- Active, or aborted.
abbrev may_hold : TxnStatus → Bool
may_hold active = true
may_hold aborted = true
may_hold _ = false

abbrev Held : SsiState → ℕ → ℕ → Type 0
Held s u k = lock_holder s k ≡ some u → may_hold (status_of s u) ≡ true

Held-init : (txns ks : List ℕ) (u k : ℕ) → Held (init txns ks) u k
unfolding init lock_holder
Held-init txns ks u k h =
    let free : Option ℕ = none in absurd (ground (arith, lookup-fill free k ks))

abort-Held :
    (why : AbortReason) (s : SsiState) (v u k : ℕ)
    → Held s u k
    → Held (release_locks v (abort_with why v s)) u k
abort-Held why s v u k h l = ground (
  arith,
  h,
  status-release_locks (abort_with why v s) v u,
  lock-release_locks (abort_with why v s) v k,
  status-abort_with why s v u,
  lock-abort_with why s v k,
)

Step-Held : {s t : SsiState} {a : SsiAction} → Step s a t → (u k : ℕ) → Held s u k → Held t u k
unfolding active_in
Step-Held {s} (began {txn = v} g) u k h l =
    ground (arith, h, status-perform_begin s v u, lock-perform_begin s v k)
Step-Held {s} (read_aborted {txn = v} g i) u k h l =
    ground (arith, h, status-abort_with read_conflict s v u, lock-abort_with read_conflict s v k)
Step-Held {s} (read_done {txn = v} {key = j} g i) u k h l = ground (
  arith,
  h,
  status-perform_read s v j (read_conflicts s v j) u,
  lock-perform_read s v j (read_conflicts s v j) k,
)
Step-Held {s} (write_aborted {txn = v} {key = j} g i w) u k h l =
    ground (arith, h, status-abort_write s v j u, lock-abort_write s v j k)
Step-Held {s} (write_done {txn = v} {key = j} g i w) u k h l = ground (
  arith,
  h,
  status-perform_write s v j (concurrent_siread_holders s v j) u,
  lock-perform_write s v j (concurrent_siread_holders s v j) k,
)
Step-Held {s} (commit_aborted {txn = v} g i) u k h l = abort-Held dangerous_structure s v u k h l
Step-Held {s} (commit_done {txn = v} g i) u k h l =
    ground (arith, h, status-perform_commit s v u, lock-perform_commit s v k)
Step-Held {s} (abort_done {txn = v} g) u k h l = abort-Held voluntary s v u k h l

Reach-Held : {txns ks : List ℕ} {s : SsiState} → Reach txns ks s → (u k : ℕ) → Held s u k
Reach-Held {txns} {ks} start u k = Held-init txns ks u k
Reach-Held (later {s} {t} a r e) u k = Step-Held (apply-Step s t a e) u k (Reach-Held r u k)

-- In a reachable state no write lock is held by a transaction that has committed, or that has not
-- begun.
pub committed_holds_no_lock :
    {txns ks : List ℕ} {s : SsiState}
    → Reach txns ks s
    → (u k : ℕ) → lock_holder s k ≡ some u
    → (status_of s u ≢ committed) × (status_of s u ≢ not_started)
committed_holds_no_lock r u k l =
    let h = Reach-Held r u k l in (λ e. ground arith, λ e. ground arith)
