-- ===== src/Store/Preservation.antt =====
-- Every call of the store (crates/vf-examples/src/ssi.rs) keeps the invariant.
use verified_concurrent.Base.{
  ℕ, ◌+◌, ◌<◌, ◌≡◌, refl, ◌∙◌, true, ◌&&◌, not, Option, none, some, List, [], ◌∷◌, arith, ◌==◌,
  if◌then◌else◌, all, Bool-cases, Option-cases, inl, inr,
}
use mathlib.Core.Option
use verified_concurrent.Base.Sets.{contains-set_insert}
use verified_concurrent.Base.Maps.{Map, lookup, insert, lookup-insert}
use verified_concurrent.Store.State.{
  TxnStatus, is_active, Version, TxnState, new_txn, SsiInner, update, lookup-update, pending,
  wrap_small,
}
use verified_concurrent.Store.Queries.{versions_of, concurrent_readers, newer_writers}
use verified_concurrent.Store.Calls.{
  set_in, set_out, set_out_if_active, note_read, note_write, update_each, begin_txn, read_txns,
  read_active, read_key, write_txns, write_version, write_active, may_lock, write_key,
}
use verified_concurrent.Store.Invariant.{
  core, may_hold, may_own, owned, Inv, all-weaken, Grows, same_core-Grows, Inv-txns,
}
use verified_concurrent.Store.Frames.{core-update, core-update_each, versions_of-insert, all-retain}

-- One more call.
pub Inv-later : {n : ℕ} {s : SsiInner} → Inv n s → Inv (n + 1) s
Inv-later {n} h = record {
  bound = (let b = h.bound in omega arith);
  known = h.known;
  locks = h.locks;
  versions = h.versions;
}

pub begin_txn-Inv :
    {n : ℕ} {s : SsiInner} → Inv n s → n + 2 < 18446744073709551616 → Inv (n + 1) (begin_txn s).0
unfolding begin_txn
begin_txn-Inv {n} {s} h l =
    let b = h.bound in
    let w = wrap_small (s.next_txn + 1) (omega arith) in
    record {
      bound = ground arith;
      known =
          λ t e. ground (arith, h.known t, lookup-insert s.next_txn t (new_txn s.timestamp) s.txns);
      locks = λ k t e. ground (
        arith,
        h.locks k t e,
        h.known t,
        lookup-insert s.next_txn t (new_txn s.timestamp) s.txns,
      );
      versions = λ k.
          all-weaken (owned s.txns k) (owned (insert s.next_txn (new_txn s.timestamp) s.txns) k)
            (versions_of k s.data_map)
            (λ v o. ground (
              arith,
              h.known v.writer_txn,
              lookup-insert s.next_txn v.writer_txn (new_txn s.timestamp) s.txns,
            ))
            (h.versions k);
    }

pub core-read_txns :
    (m : Map TxnState) (txn key : ℕ) (ws : List ℕ) (t : ℕ)
    → core (lookup t (read_txns m txn key ws)) ≡ core (lookup t m)
unfolding read_txns
core-read_txns m txn key [] t = core-update (note_read key) (λ st. refl) txn m t
core-read_txns m txn key (w ∷ ws) t =
    let marked = update_each set_in (w ∷ ws) m in
    core-update (note_read key) (λ st. refl) txn (update txn set_out marked) t
    ∙ (core-update set_out (λ st. refl) txn marked t
        ∙ core-update_each set_in (λ st. refl) (w ∷ ws) m t)

read_active-Inv :
    {n : ℕ} {s : SsiInner} (txn key ts : ℕ) → Inv n s → Inv n (read_active s txn key ts)
unfolding read_active
read_active-Inv {n} {s} txn key ts h =
    let ws = newer_writers s txn key ts in
    Inv-txns h (read_txns s.txns txn key ws) (read_active s txn key ts).siread_locks (λ t.
      same_core-Grows (lookup t s.txns) (lookup t (read_txns s.txns txn key ws))
        (core-read_txns s.txns txn key ws t))

pub read_key-Inv : {n : ℕ} {s : SsiInner} (txn key : ℕ) → Inv n s → Inv n (read_key s txn key).0
unfolding read_key
read_key-Inv {n} {s} txn key h = elim (Option-cases (lookup txn s.txns)) [
  | inl e ↦ rw (e, read_key) h
  | inr (st, e) ↦ elim (Bool-cases (is_active st.status)) [
    | inl f ↦ rw (e, f, read_key) (read_active-Inv txn key st.snapshot_ts h)
    | inr f ↦ rw (e, f, read_key) h
  ]
]

set_out_if_active-core : (st : TxnState) → core (some (set_out_if_active st)) ≡ core (some st)
set_out_if_active-core st = ground arith

abbrev pub written : Map TxnState → ℕ → ℕ → ℕ → Option TxnState
written m txn key t = if t == txn then Option.map (note_write key) (lookup t m) else lookup t m

core-note_write :
    (m m' : Map TxnState) (txn key t : ℕ)
    → core (lookup t m') ≡ core (lookup t m)
    → core (lookup t (update txn (note_write key) m')) ≡ core (written m txn key t)
core-note_write m m' txn key t e = elim (Option-cases (lookup t m)) [
  | inl f ↦ elim (Option-cases (lookup t m')) [
    | inl g ↦ ground (arith, lookup-update txn (note_write key) m' t)
    | inr (a, g) ↦ absurd (ground arith)
  ]
  | inr (a, f) ↦ elim (Option-cases (lookup t m')) [
    | inl g ↦ absurd (ground arith)
    | inr (b, g) ↦ ground (arith, lookup-update txn (note_write key) m' t)
  ]
]

pub core-write_txns :
    (m : Map TxnState) (txn key : ℕ) (rs : List ℕ) (t : ℕ)
    → core (lookup t (write_txns m txn key rs)) ≡ core (written m txn key t)
unfolding write_txns
core-write_txns m txn key [] t = core-note_write m m txn key t refl
core-write_txns m txn key (r ∷ rs) t =
    let marked = update_each set_out_if_active (r ∷ rs) m in
    core-note_write m (update txn set_in marked) txn key t (
      core-update set_in (λ st. refl) txn marked t
      ∙ core-update_each set_out_if_active set_out_if_active-core (r ∷ rs) m t)

note_write-Grows :
    (o o' : Option TxnState) (key : ℕ) → core o' ≡ core (Option.map (note_write key) o) → Grows o o'
note_write-Grows none none key e k v = (λ h. h, λ h. h, refl)
note_write-Grows none (some b) key e k v = absurd (ground arith)
note_write-Grows (some a) none key e k v = absurd (ground arith)
note_write-Grows (some a) (some b) key e k v = (
  λ h. ground (arith, contains-set_insert key a.write_set k),
  λ h. ground (arith, contains-set_insert key a.write_set k),
  refl,
)

written-Grows :
    (m : Map TxnState) (txn key : ℕ) (rs : List ℕ) (t : ℕ)
    → Grows (lookup t m) (lookup t (write_txns m txn key rs))
written-Grows m txn key rs t = elim (Bool-cases (t == txn)) [
  | inl e ↦
      note_write-Grows (lookup t m) (lookup t (write_txns m txn key rs)) key
        (ground (arith, core-write_txns m txn key rs t))
  | inr e ↦
      same_core-Grows (lookup t m) (lookup t (write_txns m txn key rs))
        (ground (arith, core-write_txns m txn key rs t))
]

-- The writer is active and has the key in its write set.
writer_core :
    (m : Map TxnState) (txn key : ℕ) (rs : List ℕ) (st : TxnState)
    → lookup txn m ≡ some st
    → is_active st.status ≡ true
    → may_hold key (core (lookup txn (write_txns m txn key rs))) ≡ true
writer_core m txn key rs st e a =
    ground (arith, core-write_txns m txn key rs txn, contains-set_insert key st.write_set key)

hold-own :
    (k : ℕ) (v : Version) (o : Option (TxnStatus × List ℕ))
    → may_hold k o ≡ true
    → v.commit_timestamp ≡ pending
    → may_own k v o ≡ true
hold-own k v none h e = absurd (ground arith)
hold-own k v (some (c, ws)) h e = ground arith

write_active-Inv :
    {n : ℕ} {s : SsiInner} (txn key value : ℕ) (st : TxnState)
    → lookup txn s.txns ≡ some st
    → is_active st.status ≡ true
    → Inv n s
    → Inv n (write_active s txn key value)
unfolding write_active
write_active-Inv {n} {s} txn key value st e a h =
    let rs = concurrent_readers s txn key in
    let m = write_txns s.txns txn key rs in
    let g = written-Grows s.txns txn key rs in
    let w = writer_core s.txns txn key rs st e a in
    let v0 : Version = record { value = value; writer_txn = txn; commit_timestamp = pending } in
    let old : (k : ℕ) → all (owned m k) (versions_of k s.data_map) ≡ true = λ k.
      all-weaken (owned s.txns k) (owned m k) (versions_of k s.data_map)
        (λ v o. (g v.writer_txn k v).1 o) (h.versions k) in
    record {
      bound = h.bound;
      known = λ t f. h.known t (ground (arith, (g t key v0).2));
      locks = λ k t f.
          ground
            (arith, lookup-insert key k (some txn) s.write_locks, h.locks k t, (g t k v0).0, w);
      versions = λ k.
          unfold all write_version in
          ground (
            arith,
            versions_of-insert key (write_version txn value (versions_of key s.data_map)) s.data_map
                k,
            old k,
            all-retain (owned m k) (λ v. not (v.writer_txn == txn && v.commit_timestamp == pending))
                (versions_of k s.data_map) (old k),
            hold-own key v0 (core (lookup txn m)) w refl,
          );
    }

pub write_key-Inv :
    {n : ℕ} {s : SsiInner} (txn key value : ℕ) → Inv n s → Inv n (write_key s txn key value).0
unfolding write_key
write_key-Inv {n} {s} txn key value h = elim (Option-cases (lookup txn s.txns)) [
  | inl e ↦ rw (e, write_key) h
  | inr (st, e) ↦ elim (Bool-cases (is_active st.status && may_lock s txn key)) [
    | inl f ↦ rw (e, f, write_key) (write_active-Inv txn key value st e (ground arith) h)
    | inr f ↦ rw (e, f, write_key) h
  ]
]
