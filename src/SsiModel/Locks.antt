-- ===== src/SsiModel/Locks.antt =====
-- Write locks and SIREAD locks of the SSI state machine (crates/vf-stateright/src/ssi.rs).
use verified_concurrent.Base.{
  Bool-cases, inl, inr, ℕ, ◌≡◌, refl, ◌≢◌, sym, ◌∙◌, Bool, true, false, ◌&&◌, ◌||◌, some, List, [],
  ◌∷◌, ◌++◌, arith, ◌==◌,
}
use mathlib.Core.Option.{some-injective}
use verified_concurrent.SsiModel.State.{
  not_started, voluntary, read_conflict, write_conflict, dangerous_structure, Operation, begin,
  read, write, commit, abort, SsiState, SsiAction, init,
}
use verified_concurrent.SsiModel.Queries.{
  status_of, active_in, lock_holder, concurrent_siread_holders,
}
use verified_concurrent.SsiModel.Apply.{
  abort_with, perform_begin, perform_read, release_locks, perform_commit, perform_write,
  abort_write, read_version, may_lock,
}
use verified_concurrent.SsiModel.Steps.{
  Step, began, read_aborted, read_done, write_aborted, write_done, commit_aborted, commit_done,
  abort_done, Reach, start, later, apply-Step,
}
use verified_concurrent.SsiModel.Effects.{
  status-perform_begin, status-abort_with, status-abort_write, status-perform_commit,
  status-perform_write, lock-abort_with, lock-release_locks, lock-perform_commit, lock-abort_write,
  lock-perform_write,
}

-- Whether a log has a write of `key` by `txn`.
unfoldable pub wrote : ℕ → ℕ → List Operation → Bool
wrote txn key [] = false
wrote txn key (write t k ∷ ops) = (t == txn && (k == key)) || wrote txn key ops
wrote txn key (_ ∷ ops) = wrote txn key ops

abbrev is_write : ℕ → ℕ → Operation → Bool
is_write txn key (write t k) = t == txn && (k == key)
is_write txn key _ = false

wrote-append :
    (txn key : ℕ) (ops : List Operation) (op : Operation)
    → wrote txn key (ops ++ op ∷ []) ≡ (wrote txn key ops || is_write txn key op)
unfolding wrote
wrote-append txn key [] (write t k) = ground arith
wrote-append txn key [] (begin t) = refl
wrote-append txn key [] _ = refl
wrote-append txn key (write t k ∷ ops) op = ground (arith, wrote-append txn key ops op)
wrote-append txn key (begin t ∷ ops) op = wrote-append txn key ops op
wrote-append txn key (_ ∷ ops) op = wrote-append txn key ops op

-- A transaction that wrote a key has begun, and holds the lock of the key while it is active.
record Holds (s : SsiState) (u k : ℕ) : Type 0 where
  started : wrote u k s.history ≡ true → status_of s u ≢ not_started
  held : wrote u k s.history ≡ true → active_in s u ≡ true → lock_holder s k ≡ some u

Holds-init : (txns ks : List ℕ) (u k : ℕ) → Holds (init txns ks) u k
unfolding init wrote
Holds-init txns ks u k = record {
  started = λ w. absurd (ground arith);
  held = λ w a. absurd (ground arith);
}

Step-Holds : {s t : SsiState} {a : SsiAction} → Step s a t → (u k : ℕ) → Holds s u k → Holds t u k
unfolding perform_begin abort_with abort_write perform_read perform_commit release_locks
    perform_write active_in may_lock status_of
Step-Holds {s} (began {txn = v} g) u k h =
    ground (arith, wrote-append u k s.history (begin v), status-perform_begin s v u)
Step-Holds {s} (read_aborted {txn = v} g _) u k h = ground (
  arith,
  wrote-append u k s.history (abort v read_conflict),
  status-abort_with read_conflict s v u,
  lock-abort_with read_conflict s v k,
)
Step-Holds {s} (read_done {txn = v} {key = j} g _) u k h =
    ground (arith, wrote-append u k s.history (read v j (read_version s v j)))
Step-Holds {s} (write_aborted {txn = v} {key = j} g l _) u k h = ground (
  arith,
  wrote-append u k s.history (abort v write_conflict),
  status-abort_write s v j u,
  lock-abort_write s v j k,
)
Step-Holds {s} (write_done {txn = v} {key = j} g l _) u k h = ground (
  arith,
  wrote-append u k s.history (write v j),
  status-perform_write s v j (concurrent_siread_holders s v j) u,
  lock-perform_write s v j (concurrent_siread_holders s v j) k,
)
Step-Holds {s} (commit_aborted {txn = v} g _) u k h = ground (
  arith,
  wrote-append u k s.history (abort v dangerous_structure),
  status-abort_with dangerous_structure s v u,
  lock-release_locks (abort_with dangerous_structure v s) v k,
  lock-abort_with dangerous_structure s v k,
)
Step-Holds {s} (commit_done {txn = v} g _) u k h = ground (
  arith,
  wrote-append u k s.history (commit v),
  status-perform_commit s v u,
  lock-perform_commit s v k,
)
Step-Holds {s} (abort_done {txn = v} g) u k h = ground (
  arith,
  wrote-append u k s.history (abort v voluntary),
  status-abort_with voluntary s v u,
  lock-release_locks (abort_with voluntary v s) v k,
  lock-abort_with voluntary s v k,
)

Reach-Holds : {txns ks : List ℕ} {s : SsiState} → Reach txns ks s → (u k : ℕ) → Holds s u k
Reach-Holds {txns} {ks} start u k = Holds-init txns ks u k
Reach-Holds (later {s} {t} a r e) u k = Step-Holds (apply-Step s t a e) u k (Reach-Holds r u k)

-- In a reachable state, where one active transaction has written a key, no other active transaction
-- has: what it wrote stays locked until it ends, so nobody overwrites uncommitted data.
pub no_dirty_write :
    {txns ks : List ℕ} {s : SsiState}
    → Reach txns ks s
    → (u v key : ℕ) → u ≢ v
    → active_in s u ≡ true
    → wrote u key s.history ≡ true
    → active_in s v ≡ true
    → wrote v key s.history ≡ false
no_dirty_write {s = s} r u v key ne au wu av = elim (Bool-cases (wrote v key s.history)) [
  | inl wv ↦ absurd (
      ne (
        some-injective u v
          (sym ((Reach-Holds r u key).held wu au) ∙ (Reach-Holds r v key).held wv av)))
  | inr e ↦ e
]
