-- ===== src/Store/Invariant.antt =====
-- What holds between the calls of the store (crates/vf-examples/src/ssi.rs): who holds the write
-- locks and who wrote the versions.
use verified_concurrent.Base.{
  ℕ, ◌+◌, ◌<◌, ◌≤◌, ◌≡◌, refl, Bool, true, false, ◌&&◌, ◌||◌, Option, none, some, List, [], ◌∷◌,
  arith, ◌==◌, contains, all, is_some, flatten,
}
use verified_concurrent.Base.Maps.{Map, lookup}
use verified_concurrent.Store.State.{
  TxnStatus, is_active, is_committed, Version, TxnState, SsiInner, pending, new,
}
use verified_concurrent.Store.Queries.{versions_of}

-- The status and the write set of a transaction.
abbrev pub core : Option TxnState → Option (TxnStatus × List ℕ)
core none = none
core (some st) = some (st.status, st.write_set)

-- Whether a transaction may hold the write lock of a key: it is active and has written the key.
abbrev pub may_hold : ℕ → Option (TxnStatus × List ℕ) → Bool
may_hold k none = false
may_hold k (some (c, ws)) = is_active c && contains k ws

-- Whether a transaction may have written a version of a key: it has the key in its write set, and
-- it has committed, or is active and the version is pending.
abbrev pub may_own : ℕ → Version → Option (TxnStatus × List ℕ) → Bool
may_own k v none = false
may_own k v (some (c, ws)) =
    contains k ws && (is_committed c || is_active c && v.commit_timestamp == pending)

abbrev pub owned : Map TxnState → ℕ → Version → Bool
owned txns k v = may_own k v (core (lookup v.writer_txn txns))

-- After at most `n` calls.
pub record Inv (n : ℕ) (s : SsiInner) : Type 0 where
  pub bound : s.next_txn ≤ n + 1
  pub known : (t : ℕ) → is_some (lookup t s.txns) ≡ true → t < s.next_txn
  pub locks :
      (k t : ℕ)
      → flatten (lookup k s.write_locks) ≡ some t
      → may_hold k (core (lookup t s.txns)) ≡ true
  pub versions : (k : ℕ) → all (owned s.txns k) (versions_of k s.data_map) ≡ true

pub Inv-new : Inv 0 new
unfolding lookup versions_of all
Inv-new = record {
  bound = omega arith;
  known = λ t h. absurd (ground arith);
  locks = λ k t h. absurd (ground arith);
  versions = λ k. refl;
}

-- `all` under a weaker test.
pub all-weaken {ℓ} :
    {A : Type ℓ} (p q : A → Bool) (xs : List A)
    → ((a : A) → p a ≡ true → q a ≡ true)
    → all p xs ≡ true
    → all q xs ≡ true
unfolding all
all-weaken p q [] w h = refl
all-weaken p q (x ∷ xs) w h = ground (arith, w x, all-weaken p q xs w)

-- A change of the transactions that keeps each status and only adds to the write sets.
abbrev pub Grows : Option TxnState → Option TxnState → Type 0
Grows o o' =
    (k : ℕ) (v : Version)
    → (may_hold k (core o) ≡ true → may_hold k (core o') ≡ true)
      × (may_own k v (core o) ≡ true → may_own k v (core o') ≡ true)
      × (is_some o' ≡ is_some o)

pub same_core-Grows : (o o' : Option TxnState) → core o' ≡ core o → Grows o o'
same_core-Grows none none e k v = (λ h. h, λ h. h, refl)
same_core-Grows none (some b) e k v = absurd (ground arith)
same_core-Grows (some a) none e k v = absurd (ground arith)
same_core-Grows (some a) (some b) e k v = (λ h. ground arith, λ h. ground arith, refl)

-- Such a change alone keeps the invariant.
pub Inv-txns :
    {n : ℕ} {s : SsiInner}
    → Inv n s
    → (m : Map TxnState) (locks : Map (List ℕ)) → ((t : ℕ) → Grows (lookup t s.txns) (lookup t m))
    → Inv n (record s { txns = m; siread_locks = locks })
Inv-txns {n} {s} h m locks g = record {
  bound = h.bound;
  known = λ t e.
      h.known t
        (ground (arith, (g t 0 (record { value = 0; writer_txn = 0; commit_timestamp = 0 })).2));
  locks = λ k t e.
      (g t k (record { value = 0; writer_txn = 0; commit_timestamp = 0 })).0 (h.locks k t e);
  versions = λ k.
      all-weaken (owned s.txns k) (owned m k) (versions_of k s.data_map)
        (λ v o. (g v.writer_txn k v).1 o) (h.versions k);
}
