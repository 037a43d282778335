-- ===== src/SsiModel/Steps.antt =====
-- The transitions of the SSI state machine as a relation, one constructor for each branch of
-- `SsiState::apply` that yields a state, and the states that it reaches.
use verified_concurrent.Base.{
  ℕ, ◌≡◌, Bool, true, false, ◌&&◌, none, some, List, arith, Bool-cases, Option-cases, if◌then◌else◌,
  subst, [], ◌∷◌, inl, inr,
}
use mathlib.Core.Option.{some-injective}
use verified_concurrent.Base.Maps.{lookup}
use verified_concurrent.SsiModel.State.{
  not_started, active, committed, aborted, voluntary, read_conflict, dangerous_structure, SsiState,
  SsiAction, begins, reads, writes, commits, aborts, init,
}
use verified_concurrent.SsiModel.Queries.{
  active_in, has_dangerous_structure, concurrent_siread_holders,
}
use verified_concurrent.SsiModel.Apply.{
  perform_begin, read_conflicts, read_would_violate, abort_with, perform_read, may_lock,
  write_would_violate, abort_write, perform_write, release_locks, perform_commit, apply_begin,
  apply_read, apply_write, apply_commit, apply_abort, apply, run,
}

pub data Step (s : SsiState) : SsiAction → SsiState → Type 0 where
  began :
      {txn : ℕ}
      → lookup txn s.txn_status ≡ some not_started
      → Step s (begins txn) (perform_begin s txn)
  read_aborted :
      {txn key : ℕ}
      → active_in s txn ≡ true
      → read_would_violate s (read_conflicts s txn key) ≡ true
      → Step s (reads txn key) (abort_with read_conflict txn s)
  read_done :
      {txn key : ℕ}
      → active_in s txn ≡ true
      → read_would_violate s (read_conflicts s txn key) ≡ false
      → Step s (reads txn key) (perform_read s txn key (read_conflicts s txn key))
  write_aborted :
      {txn key : ℕ}
      → active_in s txn ≡ true
      → may_lock s txn key ≡ true
      → write_would_violate s (concurrent_siread_holders s txn key) ≡ true
      → Step s (writes txn key) (abort_write s txn key)
  write_done :
      {txn key : ℕ}
      → active_in s txn ≡ true
      → may_lock s txn key ≡ true
      → write_would_violate s (concurrent_siread_holders s txn key) ≡ false
      → Step s (writes txn key) (perform_write s txn key (concurrent_siread_holders s txn key))
  commit_aborted :
      {txn : ℕ}
      → active_in s txn ≡ true
      → has_dangerous_structure s txn ≡ true
      → Step s (commits txn) (release_locks txn (abort_with dangerous_structure txn s))
  commit_done :
      {txn : ℕ}
      → active_in s txn ≡ true
      → has_dangerous_structure s txn ≡ false
      → Step s (commits txn) (perform_commit s txn)
  abort_done :
      {txn : ℕ}
      → active_in s txn ≡ true
      → Step s (aborts txn) (release_locks txn (abort_with voluntary txn s))

-- Every step of the relation is what `apply` computes.
pub Step-apply : {s t : SsiState} {a : SsiAction} → Step s a t → apply s a ≡ some t
unfolding apply apply_begin apply_read apply_write apply_commit apply_abort
Step-apply (began g) = ground arith
Step-apply (read_aborted g h) = ground arith
Step-apply (read_done g h) = ground arith
Step-apply (write_aborted g l h) = ground arith
Step-apply (write_done g l h) = ground arith
Step-apply (commit_aborted g h) = ground arith
Step-apply (commit_done g h) = ground arith
Step-apply (abort_done g) = ground arith

-- Moves a step along an equation of its final state.
Step-cast : {s t u : SsiState} {a : SsiAction} → Step s a t → some t ≡ some u → Step s a u
Step-cast {s} {t} {u} {a} st e = subst (Step s a) (some-injective t u e) st

begin-Step : (s t : SsiState) (txn : ℕ) → apply_begin s txn ≡ some t → Step s (begins txn) t
unfolding apply_begin
begin-Step s t txn h = elim (Option-cases (lookup txn s.txn_status)) [
  | inl e ↦ absurd (ground arith)
  | inr (not_started, e) ↦ Step-cast (began e) (ground arith)
  | inr (active, e) ↦ absurd (ground arith)
  | inr (committed, e) ↦ absurd (ground arith)
  | inr (aborted, e) ↦ absurd (ground arith)
]

-- A guarded result is taken apart into the guard and the value.
guarded :
    {g : Bool} {s t : SsiState}
    → (if g then some s else none) ≡ some t
    → (g ≡ true) × (some s ≡ some t)
guarded {g} h = ground arith

read-Step :
    (s t : SsiState) (txn key : ℕ) → apply_read s txn key ≡ some t → Step s (reads txn key) t
unfolding apply_read
read-Step s t txn key h =
    let (g, e) = guarded {g = active_in s txn} h in
    elim (Bool-cases (read_would_violate s (read_conflicts s txn key))) [
      | inl v ↦ Step-cast (read_aborted g v) (ground arith)
      | inr v ↦ Step-cast (read_done g v) (ground arith)
    ]

write-Step :
    (s t : SsiState) (txn key : ℕ) → apply_write s txn key ≡ some t → Step s (writes txn key) t
unfolding apply_write
write-Step s t txn key h =
    let (g, e) = guarded {g = active_in s txn && may_lock s txn key} h in
    elim (Bool-cases (write_would_violate s (concurrent_siread_holders s txn key))) [
      | inl v ↦ Step-cast (write_aborted (ground arith) (ground arith) v) (ground arith)
      | inr v ↦ Step-cast (write_done (ground arith) (ground arith) v) (ground arith)
    ]

commit-Step : (s t : SsiState) (txn : ℕ) → apply_commit s txn ≡ some t → Step s (commits txn) t
unfolding apply_commit
commit-Step s t txn h =
    let (g, e) = guarded {g = active_in s txn} h in
    elim (Bool-cases (has_dangerous_structure s txn)) [
      | inl v ↦ Step-cast (commit_aborted g v) (ground arith)
      | inr v ↦ Step-cast (commit_done g v) (ground arith)
    ]

abort-Step : (s t : SsiState) (txn : ℕ) → apply_abort s txn ≡ some t → Step s (aborts txn) t
unfolding apply_abort
abort-Step s t txn h = let (g, e) = guarded {g = active_in s txn} h in Step-cast (abort_done g) e

pub apply-Step : (s t : SsiState) (a : SsiAction) → apply s a ≡ some t → Step s a t
unfolding apply
apply-Step s t (begins txn) h = begin-Step s t txn h
apply-Step s t (reads txn key) h = read-Step s t txn key h
apply-Step s t (writes txn key) h = write-Step s t txn key h
apply-Step s t (commits txn) h = commit-Step s t txn h
apply-Step s t (aborts txn) h = abort-Step s t txn h

-- The states that some run of actions reaches from `SsiState::new`.
pub data Reach (txns ks : List ℕ) : SsiState → Type 0 where
  start : Reach txns ks (init txns ks)
  later : {s t : SsiState} (a : SsiAction) → Reach txns ks s → apply s a ≡ some t → Reach txns ks t

pub Reach-run :
    {txns ks : List ℕ} (s t : SsiState) (acts : List SsiAction)
    → Reach txns ks s
    → run s acts ≡ some t
    → Reach txns ks t
unfolding run
Reach-run {txns} {ks} s t [] r h = subst (Reach txns ks) (some-injective s t h) r
Reach-run s t (a ∷ rest) r h = elim (Option-cases (apply s a)) [
  | inl e ↦ absurd (ground arith)
  | inr (u, e) ↦ Reach-run u t rest (later a r e) (ground arith)
]
