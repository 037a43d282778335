-- ===== src/Store/Frames.antt =====
-- What the loops of the store (crates/vf-examples/src/ssi.rs) do to the transactions, the write
-- locks and the versions.
use verified_concurrent.Base.{
  ℕ, ◌≡◌, refl, ◌∙◌, Bool, true, false, ◌&&◌, not, Option, none, some, List, [], ◌∷◌, arith, ◌==◌,
  if◌then◌else◌, contains, all, retain, flatten, same_option, map, Bool-cases, Option-cases, inl,
  inr,
}
use verified_concurrent.Base.Maps.{Map, lookup, insert, lookup-insert}
use verified_concurrent.Store.State.{Version, TxnState, update, lookup-update}
use verified_concurrent.Store.Queries.{versions_of}
use verified_concurrent.Store.Calls.{
  update_each, release_locks, remove_versions, stamp, sort_insert, sort_versions, stamp_versions,
}
use verified_concurrent.Store.Invariant.{core}

-- A change of one transaction that keeps its status and its write set.
pub core-update :
    (f : TxnState → TxnState)
    → ((st : TxnState) → core (some (f st)) ≡ core (some st))
    → (x : ℕ) (m : Map TxnState) (j : ℕ) → core (lookup j (update x f m)) ≡ core (lookup j m)
core-update f g x m j = elim (Option-cases (lookup j m)) [
  | inl e ↦ ground (arith, lookup-update x f m j)
  | inr (st, e) ↦ ground (arith, lookup-update x f m j, g st)
]

pub core-update_each :
    (f : TxnState → TxnState)
    → ((st : TxnState) → core (some (f st)) ≡ core (some st))
    → (xs : List ℕ) (m : Map TxnState) (j : ℕ)
    → core (lookup j (update_each f xs m)) ≡ core (lookup j m)
unfolding update_each
core-update_each f g [] m j = refl
core-update_each f g (x ∷ xs) m j = core-update_each f g xs (update x f m) j ∙ core-update f g x m j

-- A lock that is held after the release was held before, and is not one of those released.
pub held-release_locks :
    (txn : ℕ) (ks : List ℕ) (m : Map (Option ℕ)) (k t : ℕ)
    → flatten (lookup k (release_locks txn ks m)) ≡ some t
    → (flatten (lookup k m) ≡ some t) × ((t == txn && contains k ks) ≡ false)
unfolding release_locks contains
held-release_locks txn [] m k t h = (h, ground arith)
held-release_locks txn (x ∷ xs) m k t h =
    elim (Bool-cases (same_option (flatten (lookup x m)) (some txn))) [
      | inl e ↦
          let (a, b) = held-release_locks txn xs (insert x none m) k t (ground arith) in
          ground (arith, lookup-insert x k none m)
      | inr e ↦ let (a, b) = held-release_locks txn xs m k t (ground arith) in ground (arith)
    ]

pub versions_of-insert :
    (k : ℕ) (vs : List Version) (m : Map (List Version)) (j : ℕ)
    → versions_of j (insert k vs m) ≡ (if j == k then vs else versions_of j m)
unfolding versions_of
versions_of-insert k vs m j = ground (arith, lookup-insert k j vs m)

versions_of-update :
    (k : ℕ) (f : List Version → List Version) (m : Map (List Version)) (j : ℕ)
    → f [] ≡ []
    → versions_of j (update k f m) ≡ (if j == k then f (versions_of j m) else versions_of j m)
unfolding versions_of
versions_of-update k f m j e = elim (Option-cases (lookup j m)) [
  | inl n ↦ ground (arith, lookup-update k f m j)
  | inr (vs, n) ↦ ground (arith, lookup-update k f m j)
]

pub all-retain {ℓ} :
    {A : Type ℓ} (p q : A → Bool) (xs : List A) → all p xs ≡ true → all p (retain q xs) ≡ true
unfolding all retain
all-retain p q [] h = refl
all-retain p q (x ∷ xs) h = ground (arith, all-retain p q xs)

retain-all {ℓ} : {A : Type ℓ} (q : A → Bool) (xs : List A) → all q (retain q xs) ≡ true
unfolding all retain
retain-all q [] = refl
retain-all q (x ∷ xs) = ground (arith, retain-all q xs)

pub all-remove_versions :
    (p : Version → Bool) (txn : ℕ) (ks : List ℕ) (m : Map (List Version)) (j : ℕ)
    → all p (versions_of j m) ≡ true
    → all p (versions_of j (remove_versions txn ks m)) ≡ true
unfolding remove_versions
all-remove_versions p txn [] m j h = h
all-remove_versions p txn (k ∷ ks) m j h =
    all-remove_versions p txn ks (update k (retain (λ v. not (v.writer_txn == txn))) m) j (
      ground (
        arith,
        versions_of-update k (retain (λ v. not (v.writer_txn == txn))) m j (unfold retain in refl),
        all-retain p (λ v. not (v.writer_txn == txn)) (versions_of j m) h,
      ))

-- None of the versions that are left at the keys is of the transaction.
pub remove_versions-all :
    (txn : ℕ) (ks : List ℕ) (m : Map (List Version)) (j : ℕ)
    → contains j ks ≡ true
    → all (λ v. not (v.writer_txn == txn)) (versions_of j (remove_versions txn ks m)) ≡ true
unfolding remove_versions contains
remove_versions-all txn [] m j c = absurd (ground arith)
remove_versions-all txn (k ∷ ks) m j c = elim (Bool-cases (j == k)) [
  | inl e ↦
      all-remove_versions (λ v. not (v.writer_txn == txn)) txn ks
        (update k (retain (λ v. not (v.writer_txn == txn))) m) j
        (rw
          (
            versions_of-update k (retain (λ v. not (v.writer_txn == txn))) m j
                (unfold retain in refl),
            e,
          )
          (retain-all (λ v. not (v.writer_txn == txn)) (versions_of j m)))
  | inr e ↦
      remove_versions-all txn ks (update k (retain (λ v. not (v.writer_txn == txn))) m) j
        (ground arith)
]

all-sort_insert :
    (p : Version → Bool) (v : Version) (ws : List Version)
    → all p (sort_insert v ws) ≡ (p v && all p ws)
unfolding sort_insert all
all-sort_insert p v [] = refl
all-sort_insert p v (w ∷ ws) = ground (arith, all-sort_insert p v ws)

all-sort_stamp :
    (p : Version → Bool) (txn ts : ℕ) (vs : List Version)
    → ((v : Version) → p v ≡ true → p (stamp txn ts v) ≡ true)
    → all p vs ≡ true
    → all p (sort_versions (map (stamp txn ts) vs)) ≡ true
unfolding sort_versions all
all-sort_stamp p txn ts [] g h = refl
all-sort_stamp p txn ts (v ∷ vs) g h = ground (
  arith,
  all-sort_insert p (stamp txn ts v) (sort_versions (map (stamp txn ts) vs)),
  all-sort_stamp p txn ts vs g,
  g v,
)

pub all-stamp_versions :
    (p : Version → Bool) (txn ts : ℕ) (ks : List ℕ) (m : Map (List Version)) (j : ℕ)
    → ((v : Version) → p v ≡ true → p (stamp txn ts v) ≡ true)
    → all p (versions_of j m) ≡ true
    → all p (versions_of j (stamp_versions txn ts ks m)) ≡ true
unfolding stamp_versions
all-stamp_versions p txn ts [] m j g h = h
all-stamp_versions p txn ts (k ∷ ks) m j g h =
    all-stamp_versions p txn ts ks (update k (λ vs. sort_versions (map (stamp txn ts) vs)) m) j g (
      ground (
        arith,
        versions_of-update k (λ vs. sort_versions (map (stamp txn ts) vs)) m j
            (unfold sort_versions in refl),
        all-sort_stamp p txn ts (versions_of j m) g h,
      ))
