-- ===== src/Checkers/Serializable.antt =====
-- What the checks of crates/vf-core/src/invariants/ssi.rs decide.
use verified_concurrent.Base.{
  ℕ, ◌≡◌, refl, subst, Bool, true, false, ◌&&◌, ◌||◌, not, Option, none, some, List, [], ◌∷◌, ◌++◌,
  is_some, arith, ◌==◌, ==_refl, contains, all, all-append, Bool-cases, inl, inr,
}
use verified_concurrent.Base.Maps.{Map, lookup, insert, get_or, lookup-insert}
use verified_concurrent.Checkers.SsiHistory.{
  SsiHistory, WriteRecord, committed_txns, were_concurrent, writers_by_key, find_second, find_pair,
  find_key, first_committer_wins, is_dangerous, find_dangerous, no_committed_dangerous_structures,
  is_serializable, result_of,
}

-- The writes of two committed transactions to a key, of which the first comes earlier.
abbrev pub clash : SsiHistory → WriteRecord → WriteRecord → Bool
clash h w v =
    (contains w.txn (committed_txns h) && contains v.txn (committed_txns h))
    && (w.key == v.key && were_concurrent h w.txn v.txn)

-- No two writes in the list clash.
unfoldable pub conflict_free : SsiHistory → List WriteRecord → Bool
conflict_free h [] = true
conflict_free h (w ∷ ws) = all (λ v. not (clash h w v)) ws && conflict_free h ws

pair_free : SsiHistory → List ℕ → Bool
pair_free h [] = true
pair_free h (t ∷ ts) = all (λ u. not (were_concurrent h t u)) ts && pair_free h ts

all_free : SsiHistory → Map (List ℕ) → Bool
unfolding pair_free
all_free h [] = true
all_free h ((k, ts) ∷ m) = pair_free h ts && all_free h m

find_second-all :
    (h : SsiHistory) (k t : ℕ) (ts : List ℕ)
    → is_some (find_second h k t ts) ≡ not (all (λ u. not (were_concurrent h t u)) ts)
unfolding find_second all
find_second-all h k t [] = refl
find_second-all h k t (u ∷ ts) = ground (arith, find_second-all h k t ts)

find_pair-pair_free :
    (h : SsiHistory) (k : ℕ) (ts : List ℕ) → is_some (find_pair h k ts) ≡ not (pair_free h ts)
unfolding find_pair pair_free
find_pair-pair_free h k [] = refl
find_pair-pair_free h k (t ∷ ts) =
    ground (arith, find_second-all h k t ts, find_pair-pair_free h k ts)

find_key-all_free :
    (h : SsiHistory) (m : Map (List ℕ)) → is_some (find_key h m) ≡ not (all_free h m)
unfolding find_key all_free
find_key-all_free h [] = refl
find_key-all_free h ((k, ts) ∷ m) =
    ground (arith, find_pair-pair_free h k ts, find_key-all_free h m)

pair_free-append :
    (h : SsiHistory) (ts : List ℕ) (t : ℕ)
    → pair_free h (ts ++ t ∷ []) ≡ (pair_free h ts && all (λ u. not (were_concurrent h u t)) ts)
unfolding pair_free all
pair_free-append h [] t = refl
pair_free-append h (u ∷ ts) t =
    ground
      (arith, pair_free-append h ts t, all-append (λ v. not (were_concurrent h u v)) ts (t ∷ []))

all_free-lookup :
    (h : SsiHistory) (m : Map (List ℕ)) (k : ℕ)
    → all_free h m ≡ true
    → pair_free h (get_or [] k m) ≡ true
unfolding all_free pair_free lookup
all_free-lookup h [] k f = refl
all_free-lookup h ((j, ts) ∷ m) k f = ground (arith, all_free-lookup h m k)

all_free-insert :
    (h : SsiHistory) (m : Map (List ℕ)) (k t : ℕ)
    → all_free h (insert k (get_or [] k m ++ t ∷ []) m)
      ≡ (all_free h m && all (λ u. not (were_concurrent h u t)) (get_or [] k m))
unfolding all_free pair_free insert lookup all
all_free-insert h [] k t = refl
all_free-insert h ((j, ts) ∷ m) k t = ground (
  arith,
  all_free-insert h m k t,
  pair_free-append h ts t,
  pair_free-append h (get_or [] k m) t,
  all_free-lookup h m k,
)

-- The write clashes with no writer in the map.
later_ok : SsiHistory → Map (List ℕ) → WriteRecord → Bool
later_ok h m v =
    not (contains v.txn (committed_txns h))
    || all (λ u. not (were_concurrent h u v.txn)) (get_or [] v.key m)

later_ok-insert :
    (h : SsiHistory) (m : Map (List ℕ)) (w v : WriteRecord)
    → contains w.txn (committed_txns h) ≡ true
    → later_ok h (insert w.key (get_or [] w.key m ++ w.txn ∷ []) m) v
      ≡ (later_ok h m v && not (clash h w v))
unfolding later_ok all
later_ok-insert h m w v c = elim (Bool-cases (v.key == w.key)) [
  | inl e ↦
      let p : w.key ≡ v.key = ground arith in
      let f = lookup-insert w.key v.key (get_or [] w.key m ++ w.txn ∷ []) m in
      let g : get_or [] v.key (insert w.key (get_or [] w.key m ++ w.txn ∷ []) m)
          ≡ get_or [] w.key m ++ w.txn ∷ [] =
        ground arith in
      let q = subst (λ k. get_or [] w.key m ≡ get_or [] k m) p refl in
      ground (
        arith,
        g,
        q,
        ==_refl v.key,
        all-append (λ u. not (were_concurrent h u v.txn)) (get_or [] w.key m) (w.txn ∷ []),
      )
  | inr e ↦
      let f = lookup-insert w.key v.key (get_or [] w.key m ++ w.txn ∷ []) m in ground (arith, f)
]

crosses-insert :
    (h : SsiHistory) (m : Map (List ℕ)) (w : WriteRecord) (ws : List WriteRecord)
    → contains w.txn (committed_txns h) ≡ true
    → all (later_ok h (insert w.key (get_or [] w.key m ++ w.txn ∷ []) m)) ws
      ≡ (all (later_ok h m) ws && all (λ v. not (clash h w v)) ws)
unfolding all
crosses-insert h m w [] c = refl
crosses-insert h m w (v ∷ ws) c =
    ground (arith, later_ok-insert h m w v c, crosses-insert h m w ws c)

no_clash :
    (h : SsiHistory) (w : WriteRecord) (ws : List WriteRecord)
    → contains w.txn (committed_txns h) ≡ false
    → all (λ v. not (clash h w v)) ws ≡ true
unfolding all
no_clash h w [] c = refl
no_clash h w (v ∷ ws) c = ground (arith, no_clash h w ws c)

writers_by_key-all_free :
    (h : SsiHistory) (ws : List WriteRecord) (m : Map (List ℕ))
    → all_free h (writers_by_key (committed_txns h) ws m)
      ≡ ((all_free h m && all (later_ok h m) ws) && conflict_free h ws)
unfolding writers_by_key conflict_free all
writers_by_key-all_free h [] m = ground arith
writers_by_key-all_free h (w ∷ ws) m = elim (Bool-cases (contains w.txn (committed_txns h))) [
  | inl c ↦
      let m' = insert w.key (get_or [] w.key m ++ w.txn ∷ []) m in
      let ih = writers_by_key-all_free h ws m' in
      let x : later_ok h m w ≡ all (λ u. not (were_concurrent h u w.txn)) (get_or [] w.key m) =
        unfold later_ok in ground arith in
      rw c (ground (arith, ih, x, all_free-insert h m w.key w.txn, crosses-insert h m w ws c))
  | inr c ↦
      let x : later_ok h m w ≡ true = unfold later_ok in ground arith in
      rw c (ground (arith, x, writers_by_key-all_free h ws m, no_clash h w ws c))
]

all-later_ok : (h : SsiHistory) (ws : List WriteRecord) → all (later_ok h []) ws ≡ true
unfolding all later_ok lookup
all-later_ok h [] = refl
all-later_ok h (w ∷ ws) = ground (arith, all-later_ok h ws)

result_of-holds : (x : Option (List ℕ)) → (result_of x).holds ≡ not (is_some x)
result_of-holds none = refl
result_of-holds (some ns) = refl

-- The check of the first committer passes just where no two writes of committed transactions to one
-- key, taken in the order of the writes, are by transactions whose lifetimes overlap.
pub first_committer_wins_iff :
    (h : SsiHistory) → (first_committer_wins h).holds ≡ conflict_free h h.writes
unfolding first_committer_wins all_free
first_committer_wins_iff h = ground (
  arith,
  result_of-holds (find_key h (writers_by_key (committed_txns h) h.writes [])),
  find_key-all_free h (writers_by_key (committed_txns h) h.writes []),
  writers_by_key-all_free h h.writes [],
  all-later_ok h h.writes,
)

find_dangerous-all :
    (h : SsiHistory) (ts : List ℕ)
    → is_some (find_dangerous h ts) ≡ not (all (λ t. not (is_dangerous h t)) ts)
unfolding find_dangerous all
find_dangerous-all h [] = refl
find_dangerous-all h (t ∷ ts) = ground (arith, find_dangerous-all h ts)

-- The check of serializability passes just where no two writes of committed transactions to one key
-- are by transactions whose lifetimes overlap, and no committed transaction has both conflict flags.
pub is_serializable_iff :
    (h : SsiHistory)
    → (is_serializable h).holds
      ≡ (conflict_free h h.writes && all (λ t. not (is_dangerous h t)) (committed_txns h))
unfolding is_serializable no_committed_dangerous_structures
is_serializable_iff h = ground (
  arith,
  first_committer_wins_iff h,
  result_of-holds (find_dangerous h (committed_txns h)),
  find_dangerous-all h (committed_txns h),
)
