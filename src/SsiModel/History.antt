-- ===== src/SsiModel/History.antt =====
-- The history of the SSI state machine (crates/vf-stateright/src/ssi.rs) read as a log: who may add
-- which entry, and what the log says of each transaction.
use verified_concurrent.Base.{
  ℕ, ◌≡◌, refl, Bool, true, false, ◌&&◌, List, [], ◌∷◌, ◌++◌, arith, ◌==◌, if◌then◌else◌,
}
use verified_concurrent.Base.Maps.{lookup-fill}
use verified_concurrent.SsiModel.State.{
  TxnStatus, not_started, active, committed, aborted, voluntary, read_conflict, write_conflict,
  dangerous_structure, Operation, begin, read, write, commit, abort, SsiState, SsiAction, init,
  is_active,
}
use verified_concurrent.SsiModel.Queries.{status_of, active_in, concurrent_siread_holders}
use verified_concurrent.SsiModel.Apply.{
  abort_with, abort_write, perform_begin, perform_read, perform_write, perform_commit,
  release_locks, read_conflicts, read_version,
}
use verified_concurrent.SsiModel.Steps.{
  Step, began, read_aborted, read_done, write_aborted, write_done, commit_aborted, commit_done,
  abort_done, Reach, start, later, apply-Step,
}
use verified_concurrent.SsiModel.Effects.{
  status-perform_begin, status-abort_with, status-abort_write, status-perform_commit,
  status-perform_read, status-perform_write,
}

-- The transaction of an entry.
abbrev pub txn_of : Operation → ℕ
txn_of (begin t) = t
txn_of (read t k v) = t
txn_of (write t k) = t
txn_of (commit t) = t
txn_of (abort t why) = t

-- The status that an entry gives to its transaction, which had status `c`.
abbrev pub advance : Operation → TxnStatus → TxnStatus
advance (begin t) c = active
advance (commit t) c = committed
advance (abort t why) c = aborted
advance op c = c

-- A transaction begins before all its other entries, once, and has none after its end.
abbrev pub allowed : Operation → TxnStatus → Bool
allowed (begin t) not_started = true
allowed (begin t) c = false
allowed op c = is_active c

-- The status of transaction `x` after a log, from status `c`.
pub recorded : ℕ → TxnStatus → List Operation → TxnStatus
recorded x c [] = c
recorded x c (op ∷ ops) = recorded x (if x == txn_of op then advance op c else c) ops

-- Whether every entry of transaction `x` in a log is allowed where it stands.
pub well_formed : ℕ → TxnStatus → List Operation → Bool
well_formed x c [] = true
well_formed x c (op ∷ ops) =
    if x == txn_of op then allowed op c && well_formed x (advance op c) ops else well_formed x c ops

recorded-append :
    (x : ℕ) (c : TxnStatus) (ops : List Operation) (op : Operation)
    → recorded x c (ops ++ op ∷ [])
      ≡ (if x == txn_of op then advance op (recorded x c ops) else recorded x c ops)
unfolding recorded
recorded-append x c [] op = refl
recorded-append x c (p ∷ ops) op =
    recorded-append x (if x == txn_of p then advance p c else c) ops op

well_formed-append :
    (x : ℕ) (c : TxnStatus) (ops : List Operation) (op : Operation)
    → well_formed x c (ops ++ op ∷ [])
      ≡ (well_formed x c ops && (if x == txn_of op then allowed op (recorded x c ops) else true))
unfolding recorded well_formed
well_formed-append x c [] op = ground arith
well_formed-append x c (p ∷ ops) op =
    ground (arith, well_formed-append x (advance p c) ops op, well_formed-append x c ops op)

-- A step adds one entry, of the transaction that acts, which its status allows.
pub record Logs (s t : SsiState) : Type 0 where
  pub entry : Operation
  pub added : t.history ≡ s.history ++ entry ∷ []
  pub permitted : allowed entry (status_of s (txn_of entry)) ≡ true
  pub moved :
      (x : ℕ)
      → status_of t x ≡ (if x == txn_of entry then advance entry (status_of s x) else status_of s x)

Step-Logs : {s t : SsiState} {a : SsiAction} → Step s a t → Logs s t
unfolding perform_begin abort_with abort_write perform_read perform_write perform_commit
    release_locks active_in status_of
Step-Logs {s} (began {txn = u} g) = record {
  entry = begin u;
  added = refl;
  permitted = ground arith;
  moved = λ x. ground (arith, status-perform_begin s u x);
}
Step-Logs {s} (read_aborted {txn = u} g h) = record {
  entry = abort u read_conflict;
  added = refl;
  permitted = g;
  moved = λ x. ground (arith, status-abort_with read_conflict s u x);
}
Step-Logs {s} (read_done {txn = u} {key = k} g h) = record {
  entry = read u k (read_version s u k);
  added = refl;
  permitted = g;
  moved = λ x. ground (arith, status-perform_read s u k (read_conflicts s u k) x);
}
Step-Logs {s} (write_aborted {txn = u} {key = k} g l h) = record {
  entry = abort u write_conflict;
  added = ground arith;
  permitted = g;
  moved = λ x. ground (arith, status-abort_write s u k x);
}
Step-Logs {s} (write_done {txn = u} {key = k} g l h) = record {
  entry = write u k;
  added = refl;
  permitted = g;
  moved = λ x. ground (arith, status-perform_write s u k (concurrent_siread_holders s u k) x);
}
Step-Logs {s} (commit_aborted {txn = u} g h) = record {
  entry = abort u dangerous_structure;
  added = refl;
  permitted = g;
  moved = λ x. ground (arith, status-abort_with dangerous_structure s u x);
}
Step-Logs {s} (commit_done {txn = u} g h) = record {
  entry = commit u;
  added = refl;
  permitted = g;
  moved = λ x. ground (arith, status-perform_commit s u x);
}
Step-Logs {s} (abort_done {txn = u} g) = record {
  entry = abort u voluntary;
  added = refl;
  permitted = g;
  moved = λ x. ground (arith, status-abort_with voluntary s u x);
}

-- What the log says of transaction `x` is its status, and its entries are in order.
abbrev pub IsLogged : SsiState → ℕ → Type 0
IsLogged s x =
    (status_of s x ≡ recorded x not_started s.history)
    × (well_formed x not_started s.history ≡ true)

IsLogged-init : (txns ks : List ℕ) (x : ℕ) → IsLogged (init txns ks) x
unfolding init status_of recorded well_formed
IsLogged-init txns ks x = (ground (arith, lookup-fill not_started x txns), refl)

Logs-IsLogged : {s t : SsiState} → Logs s t → (x : ℕ) → IsLogged s x → IsLogged t x
Logs-IsLogged {s} {t} l x (e, w) = rw l.added (
  ground (arith, l.moved x, recorded-append x not_started s.history l.entry),
  ground (arith, l.permitted, well_formed-append x not_started s.history l.entry),
)

-- In every reachable state the status of a transaction is the one that the history records, and the
-- entries of each transaction stand in order: it begins once, before its other entries, and has no
-- entry after its commit or abort.
pub Reach-IsLogged : {txns ks : List ℕ} {s : SsiState} → Reach txns ks s → (x : ℕ) → IsLogged s x
Reach-IsLogged {txns} {ks} start x = IsLogged-init txns ks x
Reach-IsLogged (later {s} {t} a r e) x =
    Logs-IsLogged (Step-Logs (apply-Step s t a e)) x (Reach-IsLogged r x)
