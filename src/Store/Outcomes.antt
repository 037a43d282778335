-- ===== src/Store/Outcomes.antt =====
-- The outcomes of the transactions of the store (crates/vf-examples/src/ssi.rs): no call changes the
-- status of a transaction that has ended, and the set of committed transactions has exactly those.
use verified_concurrent.Base.{
  ℕ, ◌+◌, ◌<◌, ◌≡◌, refl, sym, ap, ◌∙◌, Bool, true, false, ◌&&◌, Option, none, some, List, [], ◌∷◌,
  arith, ◌==◌, if◌then◌else◌, contains, length, ◌↔◌, Bool-cases, Option-cases, inl, inr,
}
use verified_concurrent.Base.Sets.{contains-set_insert}
use verified_concurrent.Base.Maps.{Map, lookup, lookup-insert}
use verified_concurrent.Store.State.{
  TxnStatus, active, committed, aborted, is_active, is_committed, has_dangerous_structure, TxnState,
  SsiInner, new_txn, new, update, lookup-update,
}
use verified_concurrent.Store.Queries.{status_in, status_at, concurrent_readers, newer_writers}
use verified_concurrent.Store.Calls.{
  set_status, begin_txn, read_txns, read_active, read_key, write_txns, write_active, may_lock,
  write_key, abort_in_commit, commit_active, commit_txn, abort_active, abort_txn,
}
use verified_concurrent.Store.Invariant.{core, Inv, Inv-new}
use verified_concurrent.Store.Preservation.{core-read_txns, core-write_txns, written}
use verified_concurrent.Store.Safety.{
  Call, begins, reads, writes, commits, aborts, after, after_all, after-Inv, after_new-Inv,
}

abbrev committed_in : Option TxnStatus → Bool
committed_in none = false
committed_in (some c) = is_committed c

-- What `committed_txns` returns is the set of the transactions whose status is committed.
abbrev Agrees : SsiInner → Type 0
Agrees s = (t : ℕ) → contains t s.committed_set ≡ committed_in (status_at s.txns t)

-- Statuses of ended transactions stay, and the set of committed ones stays right.
record Settled (s s' : SsiInner) : Type 0 where
  ended :
      (t : ℕ) (c : TxnStatus)
      → status_at s.txns t ≡ some c
      → is_active c ≡ false
      → status_at s'.txns t ≡ some c
  agrees : Agrees s → Agrees s'

same-Settled :
    (s s' : SsiInner)
    → s'.committed_set ≡ s.committed_set
    → ((t : ℕ) → status_at s'.txns t ≡ status_at s.txns t)
    → Settled s s'
same-Settled s s' e f = record {
  ended = λ t c g a. f t ∙ g;
  agrees = λ h t. ap (contains t) e ∙ (h t ∙ ap committed_in (sym (f t)));
}

core-status : (o o' : Option TxnState) → core o' ≡ core o → status_in o' ≡ status_in o
core-status none none e = refl
core-status none (some b) e = absurd (ground arith)
core-status (some a) none e = absurd (ground arith)
core-status (some a) (some b) e = ground arith

status-written :
    (m : Map TxnState) (txn key t : ℕ) → status_in (written m txn key t) ≡ status_in (lookup t m)
status-written m txn key t = elim (Option-cases (lookup t m)) [
  | inl e ↦ ground arith
  | inr (st, e) ↦ ground arith
]

begin_txn-Settled : {n : ℕ} {s : SsiInner} → Inv n s → Settled s (begin_txn s).0
unfolding begin_txn
begin_txn-Settled {n} {s} h = record {
  ended = λ t c g a. elim (Option-cases (lookup t s.txns)) [
    | inl e ↦ absurd (ground arith)
    | inr (st, e) ↦
        ground (arith, h.known t, lookup-insert s.next_txn t (new_txn s.timestamp) s.txns)
  ];
  agrees = λ i t. elim (Option-cases (lookup t s.txns)) [
    | inl e ↦ ground (arith, i t, lookup-insert s.next_txn t (new_txn s.timestamp) s.txns)
    | inr (st, e) ↦
        ground (arith, i t, h.known t, lookup-insert s.next_txn t (new_txn s.timestamp) s.txns)
  ];
}

status-ended :
    (m : Map TxnState) (txn t : ℕ) (st : TxnState) (c : TxnStatus)
    → lookup txn m ≡ some st
    → status_at (update txn (set_status c) m) t ≡ (if t == txn then some c else status_at m t)
status-ended m txn t st c e = ground (arith, lookup-update txn (set_status c) m t)

module _ (s : SsiInner) (txn : ℕ) where
  read_key-Settled : (key : ℕ) → Settled s (read_key s txn key).0
  unfolding read_key read_active
  read_key-Settled key = elim (Option-cases (lookup txn s.txns)) [
    | inl e ↦ rw (e, read_key) (same-Settled s s refl (λ t. refl))
    | inr (st, e) ↦ elim (Bool-cases (is_active st.status)) [
      | inl f ↦
          rw (e, f, read_key)
            (same-Settled s (read_active s txn key st.snapshot_ts) refl (λ t.
              core-status (lookup t s.txns)
                (lookup t (read_txns s.txns txn key (newer_writers s txn key st.snapshot_ts)))
                (core-read_txns s.txns txn key (newer_writers s txn key st.snapshot_ts) t)))
      | inr f ↦ rw (e, f, read_key) (same-Settled s s refl (λ t. refl))
    ]
  ]

  write_active-Settled : (key value : ℕ) → Settled s (write_active s txn key value)
  unfolding write_active
  write_active-Settled key value = same-Settled s (write_active s txn key value) refl (λ t.
      core-status (written s.txns txn key t)
        (lookup t (write_txns s.txns txn key (concurrent_readers s txn key)))
        (core-write_txns s.txns txn key (concurrent_readers s txn key) t)
      ∙ status-written s.txns txn key t)

  write_key-Settled : (key value : ℕ) → Settled s (write_key s txn key value).0
  unfolding write_key
  write_key-Settled key value = elim (Option-cases (lookup txn s.txns)) [
    | inl e ↦ rw (e, write_key) (same-Settled s s refl (λ t. refl))
    | inr (st, e) ↦ elim (Bool-cases (is_active st.status && may_lock s txn key)) [
      | inl f ↦ rw (e, f, write_key) (write_active-Settled key value)
      | inr f ↦ rw (e, f, write_key) (same-Settled s s refl (λ t. refl))
    ]
  ]

  module _ (st : TxnState) (e : lookup txn s.txns ≡ some st) (a : is_active st.status ≡ true) where
    abort_in_commit-Settled : Settled s (abort_in_commit s txn st.write_set)
    unfolding abort_in_commit
    abort_in_commit-Settled = record {
      ended = λ t c g b. ground (arith, status-ended s.txns txn t st aborted e);
      agrees = λ h t. ground (arith, h t, status-ended s.txns txn t st aborted e);
    }

    abort_active-Settled : Settled s (abort_active s txn st.write_set)
    unfolding abort_active
    abort_active-Settled = record {
      ended = abort_in_commit-Settled.ended;
      agrees = abort_in_commit-Settled.agrees;
    }

    commit_active-Settled : Settled s (commit_active s txn st.write_set)
    unfolding commit_active
    commit_active-Settled = record {
      ended = λ t c g b. ground (arith, status-ended s.txns txn t st committed e);
      agrees = λ h t. ground (
        arith,
        h t,
        status-ended s.txns txn t st committed e,
        contains-set_insert txn s.committed_set t,
      );
    }

  commit_txn-Settled : Settled s (commit_txn s txn).0
  unfolding commit_txn
  commit_txn-Settled = elim (Option-cases (lookup txn s.txns)) [
    | inl e ↦ rw (e, commit_txn) (same-Settled s s refl (λ t. refl))
    | inr (st, e) ↦ elim (Bool-cases (is_active st.status)) [
      | inl f ↦ elim (Bool-cases (has_dangerous_structure st)) [
        | inl g ↦ rw (e, f, g, commit_txn) (abort_in_commit-Settled st e f)
        | inr g ↦ rw (e, f, g, commit_txn) (commit_active-Settled st e f)
      ]
      | inr f ↦ rw (e, f, commit_txn) (same-Settled s s refl (λ t. refl))
    ]
  ]

  abort_txn-Settled : Settled s (abort_txn s txn)
  unfolding abort_txn
  abort_txn-Settled = elim (Option-cases (lookup txn s.txns)) [
    | inl e ↦ rw (e, abort_txn) (same-Settled s s refl (λ t. refl))
    | inr (st, e) ↦ elim (Bool-cases (is_active st.status)) [
      | inl f ↦ rw (e, f, abort_txn) (abort_active-Settled st e f)
      | inr f ↦ rw (e, f, abort_txn) (same-Settled s s refl (λ t. refl))
    ]
  ]

after-Settled : {n : ℕ} {s : SsiInner} (c : Call) → Inv n s → Settled s (after s c)
unfolding after
after-Settled {n} {s} begins h = begin_txn-Settled h
after-Settled {n} {s} (reads txn key) h = read_key-Settled s txn key
after-Settled {n} {s} (writes txn key value) h = write_key-Settled s txn key value
after-Settled {n} {s} (commits txn) h = commit_txn-Settled s txn
after-Settled {n} {s} (aborts txn) h = abort_txn-Settled s txn

after_all-Settled :
    (n : ℕ) (s : SsiInner) (cs : List Call)
    → Inv n s
    → n + length cs + 2 < 18446744073709551616
    → Settled s (after_all s cs)
unfolding after_all
after_all-Settled n s [] h l = same-Settled s s refl (λ t. refl)
after_all-Settled n s (c ∷ cs) h l =
    let first = after-Settled c h in
    let rest =
      after_all-Settled (n + 1) (after s c) cs (after-Inv c h (omega arith)) (omega arith) in
    record {
      ended = λ t o g a. rest.ended t o (first.ended t o g a) a;
      agrees = λ i. rest.agrees (first.agrees i);
    }

-- After any calls, fewer than 2 ^ 64 - 2 in all, a transaction that has committed or aborted keeps
-- that status through whatever calls follow.
pub status_is_final :
    (cs ds : List Call) (t : ℕ) (c : TxnStatus)
    → length cs + length ds + 2 < 18446744073709551616
    → status_at (after_all new cs).txns t ≡ some c
    → is_active c ≡ false
    → status_at (after_all (after_all new cs) ds).txns t ≡ some c
status_is_final cs ds t c l g a =
    (after_all-Settled (length cs) (after_all new cs) ds (after_new-Inv cs (omega arith)) l).ended t
      c g a

new-Agrees : Agrees new
unfolding contains lookup
new-Agrees t = refl

-- After any calls, fewer than 2 ^ 64 - 2, the set that `committed_txns` returns has exactly the
-- transactions whose status is committed.
pub committed_set-exact :
    (cs : List Call) (t : ℕ)
    → length cs + 2 < 18446744073709551616
    → (contains t (after_all new cs).committed_set ≡ true)
      ↔ (status_at (after_all new cs).txns t ≡ some committed)
committed_set-exact cs t l =
    let agrees = (after_all-Settled 0 new cs Inv-new (omega arith)).agrees new-Agrees t in
    exact (status_at (after_all new cs).txns t) agrees
  where
    exact :
        (o : Option TxnStatus)
        → contains t (after_all new cs).committed_set ≡ committed_in o
        → (contains t (after_all new cs).committed_set ≡ true) ↔ (o ≡ some committed)
    exact none a = (λ h. absurd (ground arith), λ h. absurd (ground arith))
    exact (some active) a = (λ h. absurd (ground arith), λ h. absurd (ground arith))
    exact (some committed) a = (λ h. refl, λ h. a)
    exact (some aborted) a = (λ h. absurd (ground arith), λ h. absurd (ground arith))
