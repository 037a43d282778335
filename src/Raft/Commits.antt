-- ===== src/Raft/Commits.antt =====
-- When a Raft node (tools/vf-evolve/tasks/raft_consensus/initial.rs) commits entries, and which it hands
-- to the application.
use verified_concurrent.Base.{
  ℕ, zero, suc, ◌+◌, ◌-◌, ◌≤◌, ◌<◌, ◌≡◌, refl, ap, sym, subst, ◌∙◌, ◌⊎◌, Bool, true, false, ◌&&◌,
  none, some, List, [], ◌∷◌, ◌++◌, append_nil, append_assoc, arith, ◌==◌, leb, ltb, length,
  get_elem?, take, Bool-cases, inl, inr,
}
use verified_concurrent.Raft.State.{LogEntry, NodeInner, quorum_size}
use verified_concurrent.Raft.Handlers.{
  has_term, delivered, apply_loop, apply_committed, replicated, find_commit, try_advance_commit,
}

abbrev pub drop : ℕ → List LogEntry → List LogEntry
drop zero xs = xs
drop (suc n) [] = []
drop (suc n) (x ∷ xs) = drop n xs

drop-delivered :
    (i : ℕ) (xs : List LogEntry)
    → i < length xs
    → drop i xs ≡ delivered (get_elem? xs i) ++ drop (suc i) xs
drop-delivered i [] l = absurd (omega arith)
drop-delivered zero (x ∷ xs) l = refl
drop-delivered (suc i) (x ∷ xs) l = drop-delivered i xs (omega arith)

pub get_elem?-some :
    (i : ℕ) (xs : List LogEntry) → i < length xs → (e : LogEntry) × (get_elem? xs i ≡ some e)
get_elem?-some i [] l = absurd (omega arith)
get_elem?-some zero (x ∷ xs) l = (x, refl)
get_elem?-some (suc i) (x ∷ xs) l = get_elem?-some i xs (omega arith)

take-drop :
    (k i : ℕ) (xs : List LogEntry)
    → i < length xs
    → take (suc k) (drop i xs) ≡ delivered (get_elem? xs i) ++ take k (drop (suc i) xs)
take-drop k i xs l = let (e, f) = get_elem?-some i xs l in ground (arith, drop-delivered i xs l)

-- What is committed by then is applied, in the order of the log, and nothing else.
pub record Applies (s t : NodeInner) : Type 0 where
  pub applied : t.last_applied ≡ s.commit_index
  pub commit : t.commit_index ≡ s.commit_index
  pub entries :
      t.pending_committed
      ≡ s.pending_committed ++ take (s.commit_index - s.last_applied) (drop s.last_applied s.log)

apply_loop-Applies :
    (k : ℕ) (s : NodeInner)
    → k + s.last_applied ≡ s.commit_index
    → s.commit_index ≤ length s.log
    → Applies s (apply_loop k s)
unfolding apply_loop
apply_loop-Applies zero s e l =
    let z : s.commit_index - s.last_applied ≡ 0 = omega arith in
    record {
      applied = omega arith;
      commit = refl;
      entries = rw z (sym (append_nil s.pending_committed));
    }
apply_loop-Applies (suc k) s e l =
    let z : s.commit_index - s.last_applied ≡ suc k = omega arith in
    let next : s.last_applied + 1 ≡ suc s.last_applied = omega arith in
    let low : ltb s.last_applied s.commit_index ≡ true = ground arith in
    let y : s.commit_index - (s.last_applied + 1) ≡ k = omega arith in
    let u : NodeInner = record s {
      last_applied = s.last_applied + 1;
      pending_committed = s.pending_committed ++ delivered (get_elem? s.log s.last_applied);
    } in
    let h = apply_loop-Applies k u (omega arith) l in
    rw low (record {
      applied = h.applied;
      commit = h.commit;
      entries =
          h.entries
          ∙ append_assoc s.pending_committed (delivered (get_elem? s.log s.last_applied))
              (take (s.commit_index - (s.last_applied + 1)) (drop (s.last_applied + 1) s.log))
          ∙ ap (λ xs. s.pending_committed ++ xs)
              (rw (y, z, next) (sym (take-drop k s.last_applied s.log (omega arith))));
    })

-- Where the applied entries are committed and the committed ones are in the log, `apply_committed`
-- ends with all of the committed entries applied: it has appended to the entries for the application
-- just those that were not applied before, in the order of the log.
pub apply_committed-Applies :
    (s : NodeInner)
    → s.last_applied ≤ s.commit_index
    → s.commit_index ≤ length s.log
    → Applies s (apply_committed s)
unfolding apply_committed
apply_committed-Applies s k l =
    apply_loop-Applies (s.commit_index - s.last_applied) s (omega arith) l

-- As many of the values of `match_index` as a quorum has are at least the index, and the leader's own
-- entry there is of its term. What `match_index` counts, a follower need not have: its answers
-- overstate it.
abbrev pub may_commit : NodeInner → ℕ → Bool
may_commit s zero = false
may_commit s (suc n) =
    leb (quorum_size (length s.peers + 1)) (replicated (suc n) s.match_index)
    && has_term (get_elem? s.log n) s.current_term

at_end :
    (s : NodeInner) (k m : ℕ) → may_commit s (suc k) ≡ false → suc k ≡ m → may_commit s m ≡ false
at_end s k m h e = subst (λ j. may_commit s j ≡ false) e h

find_commit-cases :
    (s : NodeInner) (k : ℕ)
    → ((find_commit s k ≡ none) × ((m : ℕ) → s.commit_index < m → m ≤ k → may_commit s m ≡ false))
      ⊎ ((n : ℕ) × (find_commit s k ≡ some n)
          × (s.commit_index < n)
          × (n ≤ k)
          × (may_commit s n ≡ true)
          × ((m : ℕ) → n < m → m ≤ k → may_commit s m ≡ false))
unfolding find_commit
find_commit-cases s zero = inl (refl, λ m l k. absurd (omega arith))
find_commit-cases s (suc k) = elim (Bool-cases (leb (suc k) s.commit_index)) [
  | inl e ↦ inl (rw e refl, λ m l k. absurd (ground arith))
  | inr e ↦ elim (Bool-cases (may_commit s (suc k))) [
    | inl f ↦
        inr (suc k, rw (e, f) refl, ground arith, omega arith, f, λ m l k. absurd (omega arith))
    | inr f ↦ elim (find_commit-cases s k) [
      | inl (g, h) ↦ inl (
        rw (e, f) g,
        λ m l i. elim (Bool-cases (m == suc k)) [
          | inl p ↦ at_end s k m f (ground arith)
          | inr p ↦ h m l (ground arith)
        ],
      )
      | inr (n, g, a, b, c, h) ↦ inr (
        n,
        rw (e, f) g,
        a,
        omega arith,
        c,
        λ m l i. elim (Bool-cases (m == suc k)) [
          | inl p ↦ at_end s k m f (ground arith)
          | inr p ↦ h m l (ground arith)
        ],
      )
    ]
  ]
]

-- What a leader commits: nothing, or up to the greatest index that `may_commit` allows, and then the
-- entries up to there are applied.
pub data Advances (s t : NodeInner) : Type 0 where
  keeps :
      t ≡ s
      → ((m : ℕ) → s.commit_index < m → m ≤ length s.log → may_commit s m ≡ false)
      → Advances s t
  raises :
      (n : ℕ)
      → s.commit_index < n
      → n ≤ length s.log
      → may_commit s n ≡ true
      → ((m : ℕ) → n < m → m ≤ length s.log → may_commit s m ≡ false)
      → Applies (record s { commit_index = n }) t
      → Advances s t

-- Where the applied entries are committed, a leader commits up to the greatest index above its commit
-- index that a quorum of the values of its `match_index` reach and at which its own log has an entry
-- of its term, and hands out the entries up to there; where there is no such index it changes
-- nothing. Whether the followers have the entry is not stated: `match_index` can overstate it.
pub try_advance_commit-Advances :
    (s : NodeInner) → s.last_applied ≤ s.commit_index → Advances s (try_advance_commit s)
unfolding try_advance_commit
try_advance_commit-Advances s k = elim (find_commit-cases s (length s.log)) [
  | inl (e, h) ↦ rw (e, try_advance_commit) (keeps refl h)
  | inr (n, e, a, b, c, h) ↦
      rw (e, try_advance_commit)
        (raises n a b c h (apply_committed-Applies (record s { commit_index = n }) (omega arith) b))
]
