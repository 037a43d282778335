-- ===== src/TwoPhase/Phases.antt =====
-- The loops of `run_commit` (tools/vf-evolve/tasks/two_phase_commit/initial.rs): the votes and the
-- deliveries succeed at every resource manager.
use verified_concurrent.Base.{
  ℕ, ◌≡◌, refl, true, ◌||◌, some, List, [], ◌∷◌, arith, if◌then◌else◌, contains, distinct, is_some,
}
use verified_concurrent.Base.Sets.{set_insert, contains-set_insert}
use verified_concurrent.Base.Maps.{lookup, insert, lookup-insert}
use verified_concurrent.TwoPhase.Txn.{
  RmState, working, prepared, TmState, Result, ok, TxnInner, rm_prepare_txn, rm_rcv_commit_txn,
}
use verified_concurrent.TwoPhase.Table.{
  TwoPhaseCommit, M, on_txn, rm_prepare, rm_rcv_commit, for_each,
}

-- `m` succeeds on the table `t`, and leaves the transaction `id` as `y`.
pub record Succeeds (m : M (Unit {0})) (t : TwoPhaseCommit) (id : ℕ) (y : TxnInner) : Type 0 where
  pub final : TwoPhaseCommit
  pub ran : m t ≡ (final, ok tt)
  pub entry : lookup id final.txns ≡ some y

pub on_txn-Succeeds :
    (id : ℕ) (f : TxnInner → Result TxnInner) (t : TwoPhaseCommit) (x y : TxnInner)
    → lookup id t.txns ≡ some x
    → f x ≡ ok y
    → Succeeds (on_txn id f) t id y
unfolding on_txn
on_txn-Succeeds id f t x y e q = record {
  final = record t { txns = insert id y t.txns };
  ran = rw (e, on_txn, q);
  entry = ground (arith, lookup-insert id id y t.txns);
}

cons-Succeeds :
    (rm : ℕ) (rms : List ℕ) (f : ℕ → M (Unit {0})) (t : TwoPhaseCommit) (id : ℕ) (y z : TxnInner)
    (s : Succeeds (f rm) t id y)
    → Succeeds (for_each rms f) s.final id z
    → Succeeds (for_each (rm ∷ rms) f) t id z
unfolding for_each
cons-Succeeds rm rms f t id y z s r = record {
  final = r.final;
  ran = rw s.ran r.ran;
  entry = r.entry;
}

-- The transaction `y` is `x` with the votes of `rms` added.
pub record Voted (x : TxnInner) (rms : List ℕ) (y : TxnInner) : Type 0 where
  pub same_tm : y.tm_state ≡ x.tm_state
  pub states :
      (r : ℕ)
      → lookup r y.rm_states ≡ (if contains r rms then some prepared else lookup r x.rm_states)
  pub votes : (r : ℕ) → contains r y.prepared_set ≡ (contains r rms || contains r x.prepared_set)

pub vote_yes : ℕ → TxnInner → TxnInner
vote_yes rm x = record x {
  rm_states = insert rm prepared x.rm_states;
  prepared_set = set_insert rm x.prepared_set;
}

tail_distinct : (rm : ℕ) (rms : List ℕ) → distinct (rm ∷ rms) ≡ true → distinct rms ≡ true
unfolding distinct
tail_distinct rm rms d = ground arith

still_working :
    (rm : ℕ) (rms : List ℕ) (x : TxnInner) (a : ℕ)
    → distinct (rm ∷ rms) ≡ true
    → contains a rms ≡ true
    → lookup a x.rm_states ≡ some working
    → lookup a (vote_yes rm x).rm_states ≡ some working
unfolding distinct vote_yes
still_working rm rms x a d m w = ground (arith, lookup-insert rm a prepared x.rm_states)

rm_prepare-Succeeds :
    (id rm : ℕ) (t : TwoPhaseCommit) (x : TxnInner)
    → lookup id t.txns ≡ some x
    → lookup rm x.rm_states ≡ some working
    → Succeeds (rm_prepare id rm) t id (vote_yes rm x)
unfolding rm_prepare vote_yes
rm_prepare-Succeeds id rm t x e w =
    on_txn-Succeeds id (rm_prepare_txn rm) t x (vote_yes rm x) e (rw (w, rm_prepare_txn))

Voted-cons :
    (rm : ℕ) (rms : List ℕ) (x y : TxnInner) → Voted (vote_yes rm x) rms y → Voted x (rm ∷ rms) y
unfolding vote_yes contains
Voted-cons rm rms x y v = record {
  same_tm = v.same_tm;
  states = λ r. ground (arith, v.states r, lookup-insert rm r prepared x.rm_states);
  votes = λ r. ground (arith, v.votes r, contains-set_insert rm x.prepared_set r);
}

pub prepare_all :
    (id : ℕ) (rms : List ℕ) (t : TwoPhaseCommit) (x : TxnInner)
    → lookup id t.txns ≡ some x
    → distinct rms ≡ true
    → ((r : ℕ) → contains r rms ≡ true → lookup r x.rm_states ≡ some working)
    → (y : TxnInner) × Succeeds (for_each rms (rm_prepare id)) t id y × Voted x rms y
unfolding for_each contains
prepare_all id [] t x e d w = (
  x,
  record { final = t; ran = refl; entry = e },
  record { same_tm = refl; states = λ r. refl; votes = λ r. refl },
)
prepare_all id (rm ∷ rms) t x e d w =
    let s = rm_prepare-Succeeds id rm t x e (w rm (ground arith)) in
    let (y, r, v) =
      prepare_all id rms s.final (vote_yes rm x) s.entry (tail_distinct rm rms d)
        (λ a m. still_working rm rms x a d m (w a (ground arith))) in
    (y, cons-Succeeds rm rms (rm_prepare id) t id (vote_yes rm x) y s r, Voted-cons rm rms x y v)

-- The transaction `y` is `x` with the commit delivered to `rms`.
pub record Delivered (x : TxnInner) (rms : List ℕ) (y : TxnInner) : Type 0 where
  pub same_tm : y.tm_state ≡ x.tm_state
  pub states :
      (r : ℕ)
      → lookup r y.rm_states
        ≡ (if contains r rms then some RmState.committed else lookup r x.rm_states)

pub deliver : ℕ → TxnInner → TxnInner
deliver rm x = record x { rm_states = insert rm RmState.committed x.rm_states }

rm_rcv_commit-Succeeds :
    (id rm : ℕ) (t : TwoPhaseCommit) (x : TxnInner)
    → lookup id t.txns ≡ some x
    → x.tm_state ≡ TmState.committed
    → is_some (lookup rm x.rm_states) ≡ true
    → Succeeds (rm_rcv_commit id rm) t id (deliver rm x)
unfolding rm_rcv_commit deliver
rm_rcv_commit-Succeeds id rm t x e c k =
    on_txn-Succeeds id (rm_rcv_commit_txn rm) t x (deliver rm x) e
      (unfold rm_rcv_commit_txn in ground arith)

pub deliver_all :
    (id : ℕ) (rms : List ℕ) (t : TwoPhaseCommit) (x : TxnInner)
    → lookup id t.txns ≡ some x
    → x.tm_state ≡ TmState.committed
    → ((r : ℕ) → contains r rms ≡ true → is_some (lookup r x.rm_states) ≡ true)
    → (y : TxnInner) × Succeeds (for_each rms (rm_rcv_commit id)) t id y × Delivered x rms y
unfolding for_each contains deliver
deliver_all id [] t x e c k =
    (x, record { final = t; ran = refl; entry = e }, record { same_tm = refl; states = λ r. refl })
deliver_all id (rm ∷ rms) t x e c k =
    let s = rm_rcv_commit-Succeeds id rm t x e c (k rm (ground arith)) in
    let (y, r, v) =
      deliver_all id rms s.final (deliver rm x) s.entry c
        (λ a m. ground (arith, lookup-insert rm a RmState.committed x.rm_states, k a)) in
    (
      y,
      cons-Succeeds rm rms (rm_rcv_commit id) t id (deliver rm x) y s r,
      record {
        same_tm = v.same_tm;
        states = λ a. ground (arith, v.states a, lookup-insert rm a RmState.committed x.rm_states);
      },
    )
