-- ===== src/Store/Exclusion.antt =====
-- The write locks of the store (crates/vf-examples/src/ssi.rs) keep writers apart.
use verified_concurrent.Base.{
  ℕ, ◌≡◌, refl, ◌≢◌, true, false, ◌&&◌, Option, none, some, List, [], ◌∷◌, arith, ◌==◌, contains,
  flatten, same_option, Bool-cases, Option-cases, inl, inr, sym, ◌∙◌,
}
use mathlib.Core.Option.{some-injective}
use verified_concurrent.Base.Sets.{contains-set_insert}
use verified_concurrent.Base.Maps.{Map, lookup, insert, lookup-insert}
use verified_concurrent.Store.State.{
  TxnStatus, active, committed, aborted, is_active, has_dangerous_structure, TxnState, SsiInner,
  new_txn, new, update, lookup-update,
}
use verified_concurrent.Store.Queries.{concurrent_readers, newer_writers}
use verified_concurrent.Store.Calls.{
  set_status, begin_txn, read_active, read_key, write_active, may_lock, write_key, release_locks,
  abort_in_commit, commit_active, commit_txn, abort_active, abort_txn,
}
use verified_concurrent.Store.Invariant.{core, may_hold}
use verified_concurrent.Store.Preservation.{core-read_txns, core-write_txns}
use verified_concurrent.Store.Safety.{
  Call, begins, reads, writes, commits, aborts, after, after_all,
}

-- An active transaction holds the write lock of each key in its write set.
abbrev Exclusive : SsiInner → Type 0
Exclusive s =
    (t k : ℕ)
    → may_hold k (core (lookup t s.txns)) ≡ true
    → flatten (lookup k s.write_locks) ≡ some t

-- A release keeps the locks of the others.
kept-release_locks :
    (txn : ℕ) (ks : List ℕ) (m : Map (Option ℕ)) (k t : ℕ)
    → (t == txn) ≡ false
    → flatten (lookup k m) ≡ some t
    → flatten (lookup k (release_locks txn ks m)) ≡ some t
unfolding release_locks
kept-release_locks txn [] m k t d h = h
kept-release_locks txn (x ∷ ks) m k t d h =
    elim (Bool-cases (same_option (flatten (lookup x m)) (some txn))) [
      | inl e ↦
          rw (e, release_locks)
            (kept-release_locks txn ks (insert x none m) k t d
              (ground (arith, lookup-insert x k none m)))
      | inr e ↦ rw (e, release_locks) (kept-release_locks txn ks m k t d h)
    ]

begin_txn-Exclusive : (s : SsiInner) → Exclusive s → Exclusive (begin_txn s).0
unfolding begin_txn contains
begin_txn-Exclusive s x t k h =
    ground (arith, x t k, lookup-insert s.next_txn t (new_txn s.timestamp) s.txns)

module _ (s : SsiInner) (x : Exclusive s) (txn : ℕ) where
  read_key-Exclusive : (key : ℕ) → Exclusive (read_key s txn key).0
  unfolding read_key read_active
  read_key-Exclusive key = elim (Option-cases (lookup txn s.txns)) [
    | inl e ↦ rw (e, read_key) x
    | inr (st, e) ↦ elim (Bool-cases (is_active st.status)) [
      | inl f ↦
          rw (e, f, read_key)
            (λ t k h. x t k (
              ground
                (arith, core-read_txns s.txns txn key (newer_writers s txn key st.snapshot_ts) t)))
      | inr f ↦ rw (e, f, read_key) x
    ]
  ]

  write_active-Exclusive :
      (key value : ℕ) → may_lock s txn key ≡ true → Exclusive (write_active s txn key value)
  unfolding write_active may_lock
  write_active-Exclusive key value l t k h = elim (Option-cases (lookup t s.txns)) [
    | inl e ↦
        absurd (ground (arith, core-write_txns s.txns txn key (concurrent_readers s txn key) t))
    | inr (st, e) ↦ ground (
      arith,
      x t k,
      core-write_txns s.txns txn key (concurrent_readers s txn key) t,
      contains-set_insert key st.write_set k,
      lookup-insert key k (some txn) s.write_locks,
    )
  ]

  write_key-Exclusive : (key value : ℕ) → Exclusive (write_key s txn key value).0
  unfolding write_key
  write_key-Exclusive key value = elim (Option-cases (lookup txn s.txns)) [
    | inl e ↦ rw (e, write_key) x
    | inr (st, e) ↦ elim (Bool-cases (is_active st.status && may_lock s txn key)) [
      | inl f ↦ rw (e, f, write_key) (write_active-Exclusive key value (ground arith))
      | inr f ↦ rw (e, f, write_key) x
    ]
  ]

  ended-Exclusive :
      (st : TxnState) (c : TxnStatus)
      → lookup txn s.txns ≡ some st
      → is_active c ≡ false
      → (t k : ℕ) → may_hold k (core (lookup t (update txn (set_status c) s.txns))) ≡ true
      → flatten (lookup k (release_locks txn st.write_set s.write_locks)) ≡ some t
  ended-Exclusive st c e a t k h = elim (Bool-cases (t == txn)) [
    | inl f ↦ absurd (ground (arith, lookup-update txn (set_status c) s.txns t))
    | inr f ↦
        kept-release_locks txn st.write_set s.write_locks k t f
          (x t k (ground (arith, lookup-update txn (set_status c) s.txns t)))
  ]

  commit_txn-Exclusive : Exclusive (commit_txn s txn).0
  unfolding commit_txn abort_in_commit commit_active
  commit_txn-Exclusive = elim (Option-cases (lookup txn s.txns)) [
    | inl e ↦ rw (e, commit_txn) x
    | inr (st, e) ↦ elim (Bool-cases (is_active st.status)) [
      | inl f ↦ elim (Bool-cases (has_dangerous_structure st)) [
        | inl g ↦ rw (e, f, g, commit_txn) (ended-Exclusive st aborted e refl)
        | inr g ↦ rw (e, f, g, commit_txn) (ended-Exclusive st committed e refl)
      ]
      | inr f ↦ rw (e, f, commit_txn) x
    ]
  ]

  abort_txn-Exclusive : Exclusive (abort_txn s txn)
  unfolding abort_txn abort_active abort_in_commit
  abort_txn-Exclusive = elim (Option-cases (lookup txn s.txns)) [
    | inl e ↦ rw (e, abort_txn) x
    | inr (st, e) ↦ elim (Bool-cases (is_active st.status)) [
      | inl f ↦ rw (e, f, abort_txn) (ended-Exclusive st aborted e refl)
      | inr f ↦ rw (e, f, abort_txn) x
    ]
  ]

after_all-Exclusive : (s : SsiInner) (cs : List Call) → Exclusive s → Exclusive (after_all s cs)
unfolding after_all after
after_all-Exclusive s [] x = x
after_all-Exclusive s (begins ∷ cs) x =
    after_all-Exclusive (begin_txn s).0 cs (begin_txn-Exclusive s x)
after_all-Exclusive s (reads txn key ∷ cs) x =
    after_all-Exclusive (read_key s txn key).0 cs (read_key-Exclusive s x txn key)
after_all-Exclusive s (writes txn key value ∷ cs) x =
    after_all-Exclusive (write_key s txn key value).0 cs (write_key-Exclusive s x txn key value)
after_all-Exclusive s (commits txn ∷ cs) x =
    after_all-Exclusive (commit_txn s txn).0 cs (commit_txn-Exclusive s x txn)
after_all-Exclusive s (aborts txn ∷ cs) x =
    after_all-Exclusive (abort_txn s txn) cs (abort_txn-Exclusive s x txn)

new-Exclusive : Exclusive new
unfolding lookup
new-Exclusive t k h = absurd (ground arith)

-- The transaction is active and has the key in its write set.
abbrev pub ActiveWriter : SsiInner → ℕ → ℕ → Type 0
ActiveWriter s t k =
    (st : TxnState) × (lookup t s.txns ≡ some st)
    × (st.status ≡ active)
    × (contains k st.write_set ≡ true)

ActiveWriter-may_hold :
    (s : SsiInner) (t k : ℕ) → ActiveWriter s t k → may_hold k (core (lookup t s.txns)) ≡ true
ActiveWriter-may_hold s t k (st, e, a, c) = ground arith

-- After any calls, any number of them, no two active transactions of the store have the same key in
-- their write sets.
pub write_sets_disjoint :
    (cs : List Call) (t u k : ℕ)
    → t ≢ u
    → ActiveWriter (after_all new cs) t k
    → ¬ ActiveWriter (after_all new cs) u k
write_sets_disjoint cs t u k ne a b =
    let x = after_all-Exclusive new cs new-Exclusive in
    let s = after_all new cs in
    ne (
      some-injective t u
        (sym (x t k (ActiveWriter-may_hold s t k a)) ∙ x u k (ActiveWriter-may_hold s u k b)))
