-- ===== src/SsiModel/Checks.antt =====
-- `SsiState::first_committer_wins` (crates/vf-stateright/src/ssi.rs).
use verified_concurrent.Base.{
  ℕ, ◌+◌, ◌<◌, ◌≡◌, refl, Bool, true, false, ◌&&◌, not, List, [], ◌∷◌, ◌++◌, arith, ◌==◌, ltb,
  if◌then◌else◌, all, contains, length, ==_refl, all-elim, Bool-cases, inl, inr,
}
use Prim.Native.String.{String}
use verified_concurrent.Base.Maps.{get_or, keys, lookup}
use verified_concurrent.SsiModel.State.{Operation, begin, write, SsiState}
use verified_concurrent.SsiModel.Queries.{committed_txns}
use verified_concurrent.SsiModel.Safety.{no_committed_dangerous_structures}

-- The writes of `key` by committed transactions, with their places in the history.
unfoldable pub writers_from : SsiState → ℕ → ℕ → List Operation → List (ℕ × ℕ)
unfolding contains committed_txns
writers_from s key i [] = []
writers_from s key i (write t k ∷ ops) =
    if k == key && contains t (committed_txns s)
    then (i, t) ∷ writers_from s key (i + 1) ops
    else writers_from s key (i + 1) ops
writers_from s key i (_ ∷ ops) = writers_from s key (i + 1) ops

-- The test on a pair of writers.
unfoldable pub overlapping : SsiState → ℕ × ℕ → ℕ × ℕ → Bool
unfolding lookup
overlapping s (ts1, t1) (ts2, t2) =
    ltb (get_or 0 t1 s.txn_snapshot) ts2 && ltb (get_or 0 t2 s.txn_snapshot) ts1

-- The two loops over the pairs: `true` where no pair overlaps.
unfoldable pub no_overlap : SsiState → List (ℕ × ℕ) → Bool
unfolding all overlapping
no_overlap s [] = true
no_overlap s (w ∷ ws) = all (λ v. not (overlapping s w v)) ws && no_overlap s ws

-- `SsiState::first_committer_wins`
unfoldable pub first_committer_wins : SsiState → Bool
unfolding all no_overlap writers_from keys
first_committer_wins s = all (λ k. no_overlap s (writers_from s k 0 s.history)) (keys s.write_locks)

-- `SsiState::is_serializable`
unfoldable pub is_serializable : SsiState → Bool
unfolding first_committer_wins no_committed_dangerous_structures
is_serializable s = no_committed_dangerous_structures s && first_committer_wins s

-- `SsiState::check_invariants`: the names of the violated invariants.
unfoldable pub check_invariants : SsiState → List String
unfolding is_serializable
check_invariants s =
    (if first_committer_wins s then [] else "FirstCommitterWins" ∷ [])
    ++ ((if no_committed_dangerous_structures s then [] else "NoCommittedDangerousStructures" ∷ [])
        ++ (if is_serializable s then [] else "Serializable" ∷ []))

writers_from-append :
    (s : SsiState) (key i : ℕ) (xs ys : List Operation) (j : ℕ)
    → i + length xs ≡ j
    → writers_from s key i (xs ++ ys) ≡ writers_from s key i xs ++ writers_from s key j ys
unfolding writers_from
writers_from-append s key i [] ys j e = let e' : i ≡ j = omega arith in rw e'
writers_from-append s key i (write t k ∷ xs) ys j e =
    ground (arith, writers_from-append s key (i + 1) xs ys j (omega arith))
writers_from-append s key i (begin t ∷ xs) ys j e =
    writers_from-append s key (i + 1) xs ys j (omega arith)
writers_from-append s key i (_ ∷ xs) ys j e =
    writers_from-append s key (i + 1) xs ys j (omega arith)

all-at {ℓ} :
    {A : Type ℓ} (p : A → Bool) (xs : List A) (a : A) (ys : List A)
    → p a ≡ false
    → all p (xs ++ a ∷ ys) ≡ false
unfolding all
all-at p [] a ys h = ground arith
all-at p (x ∷ xs) a ys h = ground (arith, all-at p xs a ys)

-- One overlapping pair anywhere in the list makes the check fail.
no_overlap-at :
    (s : SsiState) (pre : List (ℕ × ℕ)) (v : ℕ × ℕ) (mid : List (ℕ × ℕ)) (w : ℕ × ℕ)
    (post : List (ℕ × ℕ))
    → overlapping s v w ≡ true
    → no_overlap s (pre ++ v ∷ (mid ++ w ∷ post)) ≡ false
unfolding no_overlap
no_overlap-at s [] v mid w post h = ground (arith, all-at (λ u. not (overlapping s v u)) mid w post)
no_overlap-at s (x ∷ pre) v mid w post h = ground (arith, no_overlap-at s pre v mid w post)

writers_from-at :
    (s : SsiState) (k i t : ℕ) (ops : List Operation)
    → contains t (committed_txns s) ≡ true
    → writers_from s k i (write t k ∷ ops) ≡ (i, t) ∷ writers_from s k (i + 1) ops
unfolding writers_from
writers_from-at s k i t ops c = ground (arith, ==_refl k)

-- The check fails on every state in which a single committed transaction has written a key twice
-- after its snapshot, though no other transaction is involved.
pub first_committer_wins-rewrite :
    (s : SsiState) (t k : ℕ) (xs ys zs : List Operation)
    → s.history ≡ xs ++ write t k ∷ (ys ++ write t k ∷ zs)
    → contains k (keys s.write_locks) ≡ true
    → contains t (committed_txns s) ≡ true
    → get_or 0 t s.txn_snapshot < length xs
    → first_committer_wins s ≡ false
unfolding first_committer_wins
first_committer_wins-rewrite s t k xs ys zs e known c late =
    elim (Bool-cases (first_committer_wins s)) [
      | inl holds ↦ absurd (ground (arith, all-elim _ (keys s.write_locks) k holds known, pair))
      | inr fails ↦ fails
    ]
  where
    j : ℕ
    j = length xs + 1 + length ys

    listed :
        writers_from s k 0 s.history
        ≡ writers_from s k 0 xs
          ++ (length xs, t)
            ∷ (writers_from s k (length xs + 1) ys ++ (j, t) ∷ writers_from s k (j + 1) zs)
    listed = rw (
      e,
      writers_from-append s k 0 xs (write t k ∷ (ys ++ write t k ∷ zs)) (length xs) (omega arith),
      writers_from-at s k (length xs) t (ys ++ write t k ∷ zs) c,
      writers_from-append s k (length xs + 1) ys (write t k ∷ zs) j refl,
      writers_from-at s k j t zs c,
    )

    pair : no_overlap s (writers_from s k 0 s.history) ≡ false
    pair = rw listed (no_overlap-at s _ (length xs, t) _ (j, t) _ (ground arith))
