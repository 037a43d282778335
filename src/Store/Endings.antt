-- ===== src/Store/Endings.antt =====
-- `commit` and `abort` of the store (crates/vf-examples/src/ssi.rs) keep the invariant.
use verified_concurrent.Base.{
  ℕ, ◌≡◌, refl, Bool, true, false, not, some, List, [], ◌∷◌, arith, ◌==◌, contains, all, is_some,
  flatten, Bool-cases, Option-cases, inl, inr,
}
use verified_concurrent.Base.Maps.{Map, lookup}
use verified_concurrent.Store.State.{
  TxnStatus, committed, aborted, is_active, Version, TxnState, SsiInner, has_dangerous_structure,
  update, lookup-update,
}
use verified_concurrent.Store.Queries.{versions_of}
use verified_concurrent.Store.Calls.{
  set_status, release_locks, remove_versions, stamp, stamp_versions, abort_in_commit, commit_active,
  commit_txn, abort_active, abort_txn,
}
use verified_concurrent.Store.Invariant.{core, may_hold, owned, Inv, all-weaken}
use verified_concurrent.Store.Frames.{
  held-release_locks, all-remove_versions, remove_versions-all, all-stamp_versions,
}

-- Two tests that all elements pass, as one.
all-both {ℓ} :
    {A : Type ℓ} (p q r : A → Bool) (xs : List A)
    → ((a : A) → p a ≡ true → q a ≡ true → r a ≡ true)
    → all p xs ≡ true
    → all q xs ≡ true
    → all r xs ≡ true
unfolding all
all-both p q r [] f h i = refl
all-both p q r (x ∷ xs) f h i = ground (arith, f x, all-both p q r xs f)

-- The end of an active transaction, with the keys of its write set.
module _ {n : ℕ} {s : SsiInner} (h : Inv n s) (txn : ℕ) (st : TxnState)
    (found : lookup txn s.txns ≡ some st) (c : TxnStatus) where
  open h use {bound, known, locks, versions}

  abbrev ended : Map TxnState
  ended = update txn (set_status c) s.txns

  ended_known : (t : ℕ) → is_some (lookup t ended) ≡ true → is_some (lookup t s.txns) ≡ true
  ended_known t e = elim (Option-cases (lookup t s.txns)) [
    | inl f ↦ ground (arith, lookup-update txn (set_status c) s.txns t)
    | inr (a, f) ↦ ground arith
  ]

  ended_locks :
      (k t : ℕ)
      → flatten (lookup k (release_locks txn st.write_set s.write_locks)) ≡ some t
      → may_hold k (core (lookup t ended)) ≡ true
  ended_locks k t e =
      let (a, b) = held-release_locks txn st.write_set s.write_locks k t e in
      ground (arith, locks k t a, lookup-update txn (set_status c) s.txns t)

  -- A version of another transaction is owned as before.
  owned_other :
      (k : ℕ) (v : Version)
      → owned s.txns k v ≡ true
      → not (v.writer_txn == txn) ≡ true
      → owned ended k v ≡ true
  owned_other k v o e = ground (arith, lookup-update txn (set_status c) s.txns v.writer_txn)

  -- At a key outside the write set all versions are of others.
  owned_outside :
      (k : ℕ) (v : Version)
      → contains k st.write_set ≡ false
      → owned s.txns k v ≡ true
      → owned ended k v ≡ true
  owned_outside k v f o = ground (arith, lookup-update txn (set_status c) s.txns v.writer_txn)

  abbrev left : Map (List Version)
  left = remove_versions txn st.write_set s.data_map

  left_versions : (k : ℕ) → all (owned ended k) (versions_of k left) ≡ true
  left_versions k =
      let old = all-remove_versions (owned s.txns k) txn st.write_set s.data_map k (versions k) in
      elim (Bool-cases (contains k st.write_set)) [
        | inl e ↦
            all-both (owned s.txns k) (λ v. not (v.writer_txn == txn)) (owned ended k)
              (versions_of k left) (owned_other k) old
              (remove_versions-all txn st.write_set s.data_map k e)
        | inr e ↦
            all-weaken (owned s.txns k) (owned ended k) (versions_of k left)
              (λ v o. owned_outside k v e o) old
      ]

  -- Once the transaction has committed, the timestamps of its versions do not matter.
  owned_committed :
      c ≡ committed → (k : ℕ) (v : Version) → owned s.txns k v ≡ true → owned ended k v ≡ true
  owned_committed e k v o = ground (arith, lookup-update txn (set_status c) s.txns v.writer_txn)

  owned-stamp :
      c ≡ committed
      → (ts k : ℕ) (v : Version) → owned ended k v ≡ true
      → owned ended k (stamp txn ts v) ≡ true
  owned-stamp e ts k v o = ground (arith, lookup-update txn (set_status c) s.txns v.writer_txn)

  stamped_versions :
      c ≡ committed
      → (ts k : ℕ)
      → all (owned ended k) (versions_of k (stamp_versions txn ts st.write_set s.data_map)) ≡ true
  stamped_versions e ts k =
      all-stamp_versions (owned ended k) txn ts st.write_set s.data_map k (owned-stamp e ts k) (
        all-weaken (owned s.txns k) (owned ended k) (versions_of k s.data_map) (owned_committed e k)
          (versions k))

abort_in_commit-Inv :
    {n : ℕ} {s : SsiInner} (h : Inv n s) (txn : ℕ) (st : TxnState)
    → lookup txn s.txns ≡ some st
    → Inv n (abort_in_commit s txn st.write_set)
unfolding abort_in_commit
abort_in_commit-Inv h txn st e = record {
  bound = h.bound;
  known = λ t f. h.known t (ended_known h txn st e aborted t f);
  locks = ended_locks h txn st e aborted;
  versions = left_versions h txn st e aborted;
}

commit_active-Inv :
    {n : ℕ} {s : SsiInner} (h : Inv n s) (txn : ℕ) (st : TxnState)
    → lookup txn s.txns ≡ some st
    → Inv n (commit_active s txn st.write_set)
unfolding commit_active
commit_active-Inv {n} {s} h txn st e = record {
  bound = h.bound;
  known = λ t f. h.known t (ended_known h txn st e committed t f);
  locks = ended_locks h txn st e committed;
  versions = stamped_versions h txn st e committed refl s.timestamp;
}

abort_active-Inv :
    {n : ℕ} {s : SsiInner} (h : Inv n s) (txn : ℕ) (st : TxnState)
    → lookup txn s.txns ≡ some st
    → Inv n (abort_active s txn st.write_set)
unfolding abort_active
abort_active-Inv h txn st e =
    let i = abort_in_commit-Inv h txn st e in
    record { bound = i.bound; known = i.known; locks = i.locks; versions = i.versions }

pub commit_txn-Inv : {n : ℕ} {s : SsiInner} (txn : ℕ) → Inv n s → Inv n (commit_txn s txn).0
unfolding commit_txn
commit_txn-Inv {n} {s} txn h = elim (Option-cases (lookup txn s.txns)) [
  | inl e ↦ rw (e, commit_txn) h
  | inr (st, e) ↦ elim (Bool-cases (is_active st.status)) [
    | inl f ↦ elim (Bool-cases (has_dangerous_structure st)) [
      | inl g ↦ rw (e, f, g, commit_txn) (abort_in_commit-Inv h txn st e)
      | inr g ↦ rw (e, f, g, commit_txn) (commit_active-Inv h txn st e)
    ]
    | inr f ↦ rw (e, f, commit_txn) h
  ]
]

pub abort_txn-Inv : {n : ℕ} {s : SsiInner} (txn : ℕ) → Inv n s → Inv n (abort_txn s txn)
unfolding abort_txn
abort_txn-Inv {n} {s} txn h = elim (Option-cases (lookup txn s.txns)) [
  | inl e ↦ rw (e, abort_txn) h
  | inr (st, e) ↦ elim (Bool-cases (is_active st.status)) [
    | inl f ↦ rw (e, f, abort_txn) (abort_active-Inv h txn st e)
    | inr f ↦ rw (e, f, abort_txn) h
  ]
]
