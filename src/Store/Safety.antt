-- ===== src/Store/Safety.antt =====
-- What any sequence of calls of the store (crates/vf-examples/src/ssi.rs) keeps: the calls of all
-- threads come one after the other, since each holds the mutex throughout.
use verified_concurrent.Base.{
  ℕ, ◌+◌, ◌<◌, ◌≡◌, ◌≢◌, refl, Bool, true, false, ◌&&◌, not, Option, none, some, List, [], ◌∷◌,
  arith, ◌==◌, leb, length, all, contains, flatten, Bool-cases, Option-cases, inl, inr, subst, ap,
}
use mathlib.Core.Option.{some-injective}
use verified_concurrent.Base.Maps.{lookup}
use verified_concurrent.Store.State.{
  TxnStatus, active, committed, aborted, is_active, is_committed, Version, TxnState, SsiInner, new,
  pending,
}
use verified_concurrent.Store.Queries.{
  visible_in, visible_version, versions_of, status_in, status_at,
}
use verified_concurrent.Store.Calls.{
  begin_txn, read_active, read_key, write_key, commit_txn, abort_txn, get_current_value,
}
use verified_concurrent.Store.Invariant.{core, may_hold, may_own, owned, Inv, Inv-new}
use verified_concurrent.Store.Preservation.{Inv-later, begin_txn-Inv, read_key-Inv, write_key-Inv}
use verified_concurrent.Store.Endings.{commit_txn-Inv, abort_txn-Inv}

-- The operations of `DstTestableSsi` that change the store.
pub data Call : Type 0 where
  begins : Call
  reads : ℕ → ℕ → Call
  writes : ℕ → ℕ → ℕ → Call
  commits : ℕ → Call
  aborts : ℕ → Call

unfoldable pub after : SsiInner → Call → SsiInner
unfolding begin_txn read_key write_key commit_txn abort_txn
after s begins = (begin_txn s).0
after s (reads txn key) = (read_key s txn key).0
after s (writes txn key value) = (write_key s txn key value).0
after s (commits txn) = (commit_txn s txn).0
after s (aborts txn) = abort_txn s txn

unfoldable pub after_all : SsiInner → List Call → SsiInner
unfolding after
after_all s [] = s
after_all s (c ∷ cs) = after_all (after s c) cs

status-active : (c : TxnStatus) → is_active c ≡ true → c ≡ active
status-active active e = refl
status-active committed e = absurd (ground arith)
status-active aborted e = absurd (ground arith)

status-committed : (c : TxnStatus) → is_committed c ≡ true → c ≡ committed
status-committed active e = absurd (ground arith)
status-committed committed e = refl
status-committed aborted e = absurd (ground arith)

pub after-Inv :
    {n : ℕ} {s : SsiInner} (c : Call)
    → Inv n s
    → n + 2 < 18446744073709551616
    → Inv (n + 1) (after s c)
unfolding after
after-Inv begins h l = begin_txn-Inv h l
after-Inv (reads txn key) h l = Inv-later (read_key-Inv txn key h)
after-Inv (writes txn key value) h l = Inv-later (write_key-Inv txn key value h)
after-Inv (commits txn) h l = Inv-later (commit_txn-Inv txn h)
after-Inv (aborts txn) h l = Inv-later (abort_txn-Inv txn h)

after_all-Inv :
    (n : ℕ) (s : SsiInner) (cs : List Call)
    → Inv n s
    → n + length cs + 2 < 18446744073709551616
    → Inv (n + length cs) (after_all s cs)
unfolding after_all
after_all-Inv n s [] h l = subst (λ k. Inv k s) (omega arith) h
after_all-Inv n s (c ∷ cs) h l =
    subst (λ k. Inv k (after_all (after s c) cs)) (omega arith)
      (after_all-Inv (n + 1) (after s c) cs (after-Inv c h (omega arith)) (omega arith))

-- The store after any sequence of fewer calls than the counters can count.
pub after_new-Inv :
    (cs : List Call) → length cs + 2 < 18446744073709551616 → Inv (length cs) (after_all new cs)
after_new-Inv cs l =
    subst (λ k. Inv k (after_all new cs)) (omega arith)
      (after_all-Inv 0 new cs Inv-new (omega arith))

-- After any calls, fewer than 2 ^ 64 - 2, the holder of a write lock is a transaction that is
-- active and has the key in its write set: a transaction that has ended, in whichever way, holds no
-- lock, so it blocks no key.
pub lock_holder_is_active :
    (cs : List Call) (key t : ℕ)
    → length cs + 2 < 18446744073709551616
    → flatten (lookup key (after_all new cs).write_locks) ≡ some t
    → (st : TxnState) × (lookup t (after_all new cs).txns ≡ some st)
      × (st.status ≡ active)
      × (contains key st.write_set ≡ true)
lock_holder_is_active cs key t l e =
    let i = after_new-Inv cs l in holder (lookup t (after_all new cs).txns) refl (i.locks key t e)
  where
    holder :
        (o : Option TxnState)
        → lookup t (after_all new cs).txns ≡ o
        → may_hold key (core o) ≡ true
        → (st : TxnState) × (lookup t (after_all new cs).txns ≡ some st)
          × (st.status ≡ active)
          × (contains key st.write_set ≡ true)
    holder none f h = absurd (ground arith)
    holder (some st) f h = (st, f, status-active st.status (ground arith), ground arith)

-- A visible version is one of the versions that pass a test, and is not pending.
visible_in-all :
    (p : Version → Bool) (vs : List Version) (ts : ℕ) (v : Version)
    → all p vs ≡ true
    → visible_in vs ts ≡ some v
    → (p v ≡ true) × ((v.commit_timestamp == pending) ≡ false)
unfolding visible_in all
visible_in-all p [] ts v h e = absurd (ground arith)
visible_in-all p (w ∷ vs) ts v h e =
    elim (Bool-cases (leb w.commit_timestamp ts && not (w.commit_timestamp == pending))) [
      | inl f ↦
          let same : w ≡ v = some-injective w v (ground arith) in
          subst (λ u. (p u ≡ true) × ((u.commit_timestamp == pending) ≡ false)) same
            (ground arith, ground arith)
      | inr f ↦ visible_in-all p vs ts v (ground arith) (ground arith)
    ]

own-committed :
    (k : ℕ) (v : Version) (o : Option TxnState)
    → may_own k v (core o) ≡ true
    → (v.commit_timestamp == pending) ≡ false
    → status_in o ≡ some committed
own-committed k v none h e = absurd (ground arith)
own-committed k v (some st) h e = ap some (status-committed st.status (ground arith))

visible-committed :
    (cs : List Call) (key ts : ℕ) (v : Version)
    → length cs + 2 < 18446744073709551616
    → visible_version (after_all new cs) key ts ≡ some v
    → status_at (after_all new cs).txns v.writer_txn ≡ some committed
unfolding visible_version
visible-committed cs key ts v l e =
    let i = after_new-Inv cs l in
    let s = after_all new cs in
    let (a, b) =
      visible_in-all (owned s.txns key) (versions_of key s.data_map) ts v (i.versions key) e in
    own-committed key v (lookup v.writer_txn s.txns) a b

-- A read that returns a value is by a transaction that is active.
reader_is_active :
    (s : SsiInner) (txn key x : ℕ) (st : TxnState)
    → lookup txn s.txns ≡ some st
    → (read_key s txn key).1 ≡ some x
    → status_at s.txns txn ≡ some active
unfolding read_key
reader_is_active s txn key x st f e = elim (Bool-cases (is_active st.status)) [
  | inl h ↦ let p = status-active st.status h in ground arith
  | inr h ↦ absurd (ground arith)
]

active_uncommitted : (o : Option TxnStatus) → o ≡ some active → o ≡ some committed → ⊥
active_uncommitted o e f = absurd (ground arith)

-- After any calls, fewer than 2 ^ 64 - 2, a value that `read` returns is that of the version which
-- is visible at the snapshot of the transaction, and the writer of that version has committed and is
-- another transaction: no read returns a pending write or one of a transaction that aborted. That
-- includes a reader that has written the key itself: it gets the committed value of its snapshot,
-- where specs/ssi/serializable_snapshot_isolation.tla has it read its own write.
pub read_key-committed :
    (cs : List Call) (txn key x : ℕ)
    → length cs + 2 < 18446744073709551616
    → (read_key (after_all new cs) txn key).1 ≡ some x
    → (st : TxnState) × (v : Version) × (lookup txn (after_all new cs).txns ≡ some st)
      × (visible_version (after_all new cs) key st.snapshot_ts ≡ some v)
      × (v.value ≡ x)
      × (status_at (after_all new cs).txns v.writer_txn ≡ some committed)
      × (v.writer_txn ≢ txn)
unfolding read_key
read_key-committed cs txn key x l e =
    let s = after_all new cs in
    elim (Option-cases (lookup txn s.txns)) [
      | inl f ↦ absurd (ground arith)
      | inr (st, f) ↦ elim (Option-cases (visible_version s key st.snapshot_ts)) [
        | inl g ↦ absurd (unfold read_active visible_version in ground arith)
        | inr (v, g) ↦
            let c = visible-committed cs key st.snapshot_ts v l g in
            (
              st,
              v,
              f,
              g,
              (unfold read_active visible_version in ground arith),
              c,
              λ same.
                  active_uncommitted (status_at s.txns txn) (reader_is_active s txn key x st f e)
                    (subst (λ i. status_at s.txns i ≡ some committed) same c),
            )
      ]
    ]

-- After any calls, fewer than 2 ^ 64 - 2, a value that `get_current_value` returns was written by a
-- transaction that has committed.
pub get_current_value-committed :
    (cs : List Call) (key x : ℕ)
    → length cs + 2 < 18446744073709551616
    → get_current_value (after_all new cs) key ≡ some x
    → (v : Version) × (v.value ≡ x)
      × (status_at (after_all new cs).txns v.writer_txn ≡ some committed)
unfolding get_current_value
get_current_value-committed cs key x l e =
    let s = after_all new cs in
    elim (Option-cases (visible_version s key s.timestamp)) [
      | inl g ↦ absurd (ground arith)
      | inr (v, g) ↦ (v, ground arith, visible-committed cs key s.timestamp v l g)
    ]
