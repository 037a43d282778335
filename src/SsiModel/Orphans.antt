-- ===== src/SsiModel/Orphans.antt =====
-- A transaction that aborts in `Read` (crates/vf-stateright/src/ssi.rs) keeps its write locks.
use verified_concurrent.Base.{ℕ, ◌≡◌, true, none, some, arith}
use verified_concurrent.SsiModel.State.{
  aborted, AbortReason, voluntary, dangerous_structure, read_conflict, SsiState, SsiAction, reads,
  writes,
}
use verified_concurrent.SsiModel.Queries.{
  status_of, active_in, lock_holder, concurrent_siread_holders,
}
use verified_concurrent.SsiModel.Apply.{
  may_lock, apply, apply_write, abort_with, release_locks, read_conflicts,
}
use verified_concurrent.SsiModel.Steps.{
  Step, began, read_aborted, read_done, write_aborted, write_done, commit_aborted, commit_done,
  abort_done, apply-Step,
}
use verified_concurrent.SsiModel.Effects.{
  status-perform_begin, status-abort_with, status-abort_write, status-perform_commit,
  status-release_locks, status-perform_read, status-perform_write, lock-abort_with,
  lock-perform_begin, lock-perform_read, lock-release_locks, lock-perform_commit, lock-abort_write,
  lock-perform_write,
}

-- Any number of actions from `s`.
pub data Steps (s : SsiState) : SsiState → Type 0 where
  here : Steps s s
  next : {t u : SsiState} (a : SsiAction) → Steps s t → apply t a ≡ some u → Steps s u

-- A lock in the hands of a transaction that has aborted.
abbrev pub IsOrphaned : SsiState → ℕ → ℕ → Type 0
IsOrphaned s u k = (lock_holder s k ≡ some u) × (status_of s u ≡ aborted)

-- An abort that releases the locks of `v` leaves those of the others.
abort_releases :
    (why : AbortReason) (s : SsiState) (v u k : ℕ)
    → active_in s v ≡ true
    → IsOrphaned s u k
    → IsOrphaned (release_locks v (abort_with why v s)) u k
unfolding active_in
abort_releases why s v u k g o = ground (
  arith,
  status-release_locks (abort_with why v s) v u,
  lock-release_locks (abort_with why v s) v k,
  status-abort_with why s v u,
  lock-abort_with why s v k,
)

Step-IsOrphaned :
    {s t : SsiState} {a : SsiAction} → Step s a t → (u k : ℕ) → IsOrphaned s u k → IsOrphaned t u k
unfolding active_in may_lock
Step-IsOrphaned {s} (began {txn = v} g) u k o =
    ground (arith, status-perform_begin s v u, lock-perform_begin s v k)
Step-IsOrphaned {s} (read_aborted {txn = v} g h) u k o =
    ground (arith, status-abort_with read_conflict s v u, lock-abort_with read_conflict s v k)
Step-IsOrphaned {s} (read_done {txn = v} {key = j} g h) u k o = ground (
  arith,
  status-perform_read s v j (read_conflicts s v j) u,
  lock-perform_read s v j (read_conflicts s v j) k,
)
Step-IsOrphaned {s} (write_aborted {txn = v} {key = j} g l w) u k o =
    ground (arith, status-abort_write s v j u, lock-abort_write s v j k)
Step-IsOrphaned {s} (write_done {txn = v} {key = j} g l w) u k o = ground (
  arith,
  status-perform_write s v j (concurrent_siread_holders s v j) u,
  lock-perform_write s v j (concurrent_siread_holders s v j) k,
)
Step-IsOrphaned {s} (commit_aborted {txn = v} g h) u k o =
    abort_releases dangerous_structure s v u k g o
Step-IsOrphaned {s} (commit_done {txn = v} g h) u k o =
    ground (arith, status-perform_commit s v u, lock-perform_commit s v k)
Step-IsOrphaned {s} (abort_done {txn = v} g) u k o = abort_releases voluntary s v u k g o

pub Steps-IsOrphaned :
    {s t : SsiState} → Steps s t → (u k : ℕ) → IsOrphaned s u k → IsOrphaned t u k
Steps-IsOrphaned here u k o = o
Steps-IsOrphaned (next {t} {u = w} a r e) u k o =
    Step-IsOrphaned (apply-Step t w a e) u k (Steps-IsOrphaned r u k o)

-- An orphaned lock keeps every writer out.
orphan_blocks : (s : SsiState) (u k v : ℕ) → IsOrphaned s u k → apply s (writes v k) ≡ none
unfolding apply apply_write may_lock active_in
orphan_blocks s u k v o = ground arith

read_orphans :
    {s : SsiState} {u key : ℕ} {t : SsiState}
    → Step s (reads u key) t
    → (k : ℕ) → lock_holder s k ≡ some u
    → status_of t u ≡ aborted
    → IsOrphaned t u k
unfolding active_in
read_orphans {s} (read_aborted {txn = v} g h) k l a =
    (rw (lock-abort_with read_conflict s v k) l, a)
read_orphans {s} {u} {key} (read_done g h) k l a =
    absurd (ground (arith, status-perform_read s u key (read_conflicts s u key) u))

-- Where a read makes its transaction abort while the transaction holds the write lock of `k`, the
-- lock is never released: after any further actions no transaction can write `k`.
pub read_abort_blocks_key :
    (s t : SsiState) (u key k : ℕ)
    → lock_holder s k ≡ some u
    → apply s (reads u key) ≡ some t
    → status_of t u ≡ aborted
    → {t' : SsiState} → Steps t t'
    → (v : ℕ) → apply t' (writes v k) ≡ none
read_abort_blocks_key s t u key k l e a {t'} r v =
    orphan_blocks t' u k v
      (Steps-IsOrphaned r u k (read_orphans (apply-Step s t (reads u key) e) k l a))
