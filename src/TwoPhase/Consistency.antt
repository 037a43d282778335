-- ===== src/TwoPhase/Consistency.antt =====
-- The methods of two-phase commit (tools/vf-evolve/tasks/two_phase_commit/initial.rs) keep every
-- transaction of the table consistent.
use verified_concurrent.Base.{
  ℕ, ◌≡◌, refl, some, List, [], ◌∷◌, arith, ◌==◌, Option-cases, Bool-cases, inl, inr, ◌⊎◌,
}
use mathlib.Core.Option.{some-injective}
use mathlib.Core.Path.{subst}
use verified_concurrent.Base.Maps.{lookup, insert, lookup-insert}
use verified_concurrent.TwoPhase.Txn.{
  TpcError, Result, ok, err, TxnInner, new_txn, tm_prepare_txn, rm_prepare_txn,
  rm_choose_to_abort_txn, tm_commit_txn, tm_abort_txn, rm_rcv_commit_txn, rm_rcv_abort_txn,
}
use verified_concurrent.TwoPhase.Table.{
  TwoPhaseCommit, M, ◌>>=◌, resume, begin, get_rm_state, on_txn, tm_prepare, rm_prepare,
  rm_choose_to_abort, tm_commit, tm_abort, rm_rcv_commit, rm_rcv_abort, for_each, run_commit, vote,
  deliver_abort, run_abort, is_aborted,
}
use verified_concurrent.TwoPhase.Votes.{
  Fits, new_txn-Fits, tm_prepare-Fits, rm_prepare-Fits, rm_choose_to_abort-Fits, tm_commit-Fits,
  tm_abort-Fits, rm_rcv_commit-Fits, rm_rcv_abort-Fits,
}

-- Every transaction of the table is consistent.
abbrev pub IsConsistent : TwoPhaseCommit → Type 0
IsConsistent t = (id : ℕ) (x : TxnInner) → lookup id t.txns ≡ some x → (r : ℕ) → Fits x r

abbrev pub Keeps : {A : Type 0} → M A → Type 0
Keeps m = (t : TwoPhaseCommit) → IsConsistent t → IsConsistent (m t).0

insert-IsConsistent :
    (t : TwoPhaseCommit) (id : ℕ) (y : TxnInner)
    → ((r : ℕ) → Fits y r)
    → IsConsistent t
    → IsConsistent (record t { txns = insert id y t.txns })
insert-IsConsistent t id y fy c j x e r = elim (Bool-cases (j == id)) [
  | inl same ↦
      subst (λ (z : TxnInner). Fits z r)
        (some-injective y x (ground (arith, lookup-insert id j y t.txns))) (fy r)
  | inr other ↦ c j x (ground (arith, lookup-insert id j y t.txns)) r
]

Result-cases : {A : Type 0} (o : Result A) → ((a : A) × (o ≡ ok a)) ⊎ ((e : TpcError) × (o ≡ err e))
Result-cases (ok a) = inl (a, refl)
Result-cases (err e) = inr (e, refl)

on_txn-Keeps :
    (id : ℕ) (f : TxnInner → Result TxnInner)
    → ((x y : TxnInner) → f x ≡ ok y → ((r : ℕ) → Fits x r) → (r : ℕ) → Fits y r)
    → Keeps (on_txn id f)
unfolding on_txn
on_txn-Keeps id f keep t c = elim (Option-cases (lookup id t.txns)) [
  | inl e ↦ rw (e, on_txn) c
  | inr (x, e) ↦ elim (Result-cases (f x)) [
    | inl (y, q) ↦ rw (e, on_txn, q) (insert-IsConsistent t id y (keep x y q (c id x e)) c)
    | inr (z, q) ↦ rw (e, on_txn, q) c
  ]
]

bind-Keeps :
    {A B : Type 0} (m : M A) (f : A → M B) → Keeps m → ((a : A) → Keeps (f a)) → Keeps (m >>= f)
bind-Keeps {A} m f km kf t c = go (m t) (km t c)
  where
    go : (p : TwoPhaseCommit × Result A) → IsConsistent p.0 → IsConsistent (resume p f).0
    go (t', ok a) c' = kf a t' c'
    go (t', err e) c' = c'

for_each-Keeps :
    (rms : List ℕ) (f : ℕ → M (Unit {0})) → ((r : ℕ) → Keeps (f r)) → Keeps (for_each rms f)
unfolding for_each
for_each-Keeps [] f k t c = c
for_each-Keeps (rm ∷ rms) f k t c =
    bind-Keeps (f rm) (λ _. for_each rms f) (k rm) (λ _. for_each-Keeps rms f k) t c

pub begin-Keeps : Keeps begin
unfolding begin
begin-Keeps t c = insert-IsConsistent t t.next_txn_id (new_txn t.rm_ids) (new_txn-Fits t.rm_ids) c

pub tm_prepare-Keeps : (id : ℕ) → Keeps (tm_prepare id)
unfolding tm_prepare
tm_prepare-Keeps id = on_txn-Keeps id tm_prepare_txn (λ x y e f r. tm_prepare-Fits x r e (f r))

pub rm_prepare-Keeps : (id rm : ℕ) → Keeps (rm_prepare id rm)
unfolding rm_prepare
rm_prepare-Keeps id rm =
    on_txn-Keeps id (rm_prepare_txn rm) (λ x y e f r. rm_prepare-Fits rm x r e (f r) (f rm))

pub rm_choose_to_abort-Keeps : (id rm : ℕ) → Keeps (rm_choose_to_abort id rm)
unfolding rm_choose_to_abort
rm_choose_to_abort-Keeps id rm =
    on_txn-Keeps id (rm_choose_to_abort_txn rm)
      (λ x y e f r. rm_choose_to_abort-Fits rm x r e (f r))

pub tm_commit-Keeps : (id : ℕ) → Keeps (tm_commit id)
unfolding tm_commit
tm_commit-Keeps id = on_txn-Keeps id tm_commit_txn (λ x y e f r. tm_commit-Fits x r e (f r))

pub tm_abort-Keeps : (id : ℕ) → Keeps (tm_abort id)
unfolding tm_abort
tm_abort-Keeps id = on_txn-Keeps id tm_abort_txn (λ x y e f r. tm_abort-Fits x r e (f r))

pub rm_rcv_commit-Keeps : (id rm : ℕ) → Keeps (rm_rcv_commit id rm)
unfolding rm_rcv_commit
rm_rcv_commit-Keeps id rm =
    on_txn-Keeps id (rm_rcv_commit_txn rm) (λ x y e f r. rm_rcv_commit-Fits rm x r e (f r))

pub rm_rcv_abort-Keeps : (id rm : ℕ) → Keeps (rm_rcv_abort id rm)
unfolding rm_rcv_abort
rm_rcv_abort-Keeps id rm =
    on_txn-Keeps id (rm_rcv_abort_txn rm) (λ x y e f r. rm_rcv_abort-Fits rm x r e (f r))

vote-Keeps : (id a rm : ℕ) → Keeps (vote id a rm)
unfolding vote
vote-Keeps id a rm t c = elim (Bool-cases (rm == a)) [
  | inl e ↦ rw (e, vote) (rm_choose_to_abort-Keeps id rm t c)
  | inr e ↦ rw (e, vote) (rm_prepare-Keeps id rm t c)
]

deliver_abort-Keeps : (id rm : ℕ) → Keeps (deliver_abort id rm)
unfolding deliver_abort
deliver_abort-Keeps id rm t c = elim (Bool-cases (is_aborted (get_rm_state t id rm))) [
  | inl e ↦ rw (e, deliver_abort) c
  | inr e ↦ rw (e, deliver_abort) (rm_rcv_abort-Keeps id rm t c)
]

pub run_commit-Keeps : (id : ℕ) → Keeps (run_commit id)
unfolding run_commit
run_commit-Keeps id t =
    bind-Keeps (tm_prepare id) _ (tm_prepare-Keeps id)
      (λ _.
        bind-Keeps (for_each t.rm_ids (rm_prepare id)) _
          (for_each-Keeps t.rm_ids (rm_prepare id) (rm_prepare-Keeps id))
          (λ _. bind-Keeps (tm_commit id) _ (tm_commit-Keeps id) (λ _.
            bind-Keeps (for_each t.rm_ids (rm_rcv_commit id)) _
              (for_each-Keeps t.rm_ids (rm_rcv_commit id) (rm_rcv_commit-Keeps id)) (λ _ u c. c))))
      t

pub run_abort-Keeps : (id a : ℕ) → Keeps (run_abort id a)
unfolding run_abort
run_abort-Keeps id a t =
    bind-Keeps (tm_prepare id) _ (tm_prepare-Keeps id)
      (λ _.
        bind-Keeps (for_each t.rm_ids (vote id a)) _
          (for_each-Keeps t.rm_ids (vote id a) (vote-Keeps id a))
          (λ _. bind-Keeps (tm_abort id) _ (tm_abort-Keeps id) (λ _.
            bind-Keeps (for_each t.rm_ids (deliver_abort id)) _
              (for_each-Keeps t.rm_ids (deliver_abort id) (deliver_abort-Keeps id)) (λ _ u c. c))))
      t
