-- ===== src/Raft/Logs.antt =====
-- The log of a Raft node (tools/vf-evolve/tasks/raft_consensus/initial.rs) under the entries of a
-- leader: the loop over the received entries.
use verified_concurrent.Base.{
  ℕ, zero, suc, ◌+◌, ◌≤◌, ◌<◌, ◌≡◌, refl, Bool, true, ◌&&◌, some, List, [], ◌∷◌, ◌++◌, arith, ◌==◌,
  ltb, length, length-append, get_elem?, take, Bool-cases, ◌⊎◌, subst, sym, ◌∙◌, inl, inr,
}
use verified_concurrent.Raft.State.{LogEntry, dec_word}
use verified_concurrent.Raft.Handlers.{has_term, append_log}

-- The entries have the indices after `k`, in order.
unfoldable pub indexed : ℕ → List LogEntry → Bool
indexed k [] = true
indexed k (e ∷ es) = e.index == k + 1 && indexed (k + 1) es

-- From position `k` on the log has entries of the same terms.
unfoldable pub stores : List LogEntry → ℕ → List LogEntry → Bool
stores log k [] = true
stores log k (e ∷ es) = has_term (get_elem? log k) e.term && stores log (k + 1) es

pub indexed-append :
    (k : ℕ) (xs ys : List LogEntry)
    → indexed k (xs ++ ys) ≡ (indexed k xs && indexed (k + length xs) ys)
unfolding indexed
indexed-append k [] ys = ground arith
indexed-append k (x ∷ xs) ys = ground (arith, indexed-append (k + 1) xs ys)

indexed-take : (k n : ℕ) (xs : List LogEntry) → indexed k xs ≡ true → indexed k (take n xs) ≡ true
unfolding indexed
indexed-take k zero xs h = refl
indexed-take k (suc n) [] h = refl
indexed-take k (suc n) (x ∷ xs) h = ground (arith, indexed-take (k + 1) n xs)

length-take : (n : ℕ) (xs : List LogEntry) → n ≤ length xs → length (take n xs) ≡ n
length-take zero xs l = refl
length-take (suc n) [] l = absurd (omega arith)
length-take (suc n) (x ∷ xs) l = ground (arith, length-take n xs)

pub get_elem?-take :
    (n k : ℕ) (xs : List LogEntry) → k < n → get_elem? (take n xs) k ≡ get_elem? xs k
get_elem?-take zero k xs l = absurd (omega arith)
get_elem?-take (suc n) k [] l = ground arith
get_elem?-take (suc n) zero (x ∷ xs) l = refl
get_elem?-take (suc n) (suc k) (x ∷ xs) l = get_elem?-take n k xs (omega arith)

pub get_elem?-append :
    (k : ℕ) (xs ys : List LogEntry) → k < length xs → get_elem? (xs ++ ys) k ≡ get_elem? xs k
get_elem?-append k [] ys l = absurd (omega arith)
get_elem?-append zero (x ∷ xs) ys l = refl
get_elem?-append (suc k) (x ∷ xs) ys l = get_elem?-append k xs ys (omega arith)

pub get_elem?-end :
    (x : LogEntry) (xs : List LogEntry) → get_elem? (xs ++ x ∷ []) (length xs) ≡ some x
get_elem?-end x [] = refl
get_elem?-end x (y ∷ ys) = ground (arith, get_elem?-end x ys)

module _ (e : LogEntry) (log : List LogEntry) (k : ℕ) (l : k ≤ length log) where
  -- The entry at position `k` replaces what the log has from there on.
  pub length-replaced : length (take k log ++ e ∷ []) ≡ k + 1
  length-replaced = ground (arith, length-append (take k log) (e ∷ []), length-take k log l)

  pub get_elem?-replaced : get_elem? (take k log ++ e ∷ []) k ≡ some e
  get_elem?-replaced = ground (arith, get_elem?-end e (take k log), length-take k log l)

  pub replaced-before : (j : ℕ) → j < k → get_elem? (take k log ++ e ∷ []) j ≡ get_elem? log j
  replaced-before j m = ground (
    arith,
    get_elem?-append j (take k log) (e ∷ []),
    get_elem?-take k j log m,
    length-take k log l,
  )

  pub indexed-replaced :
      e.index ≡ k + 1 → indexed 0 log ≡ true → indexed 0 (take k log ++ e ∷ []) ≡ true
  unfolding indexed
  indexed-replaced f h =
      ground
        (arith, indexed-append 0 (take k log) (e ∷ []), indexed-take 0 k log h, length-take k log l)

take-all : (xs : List LogEntry) → take (length xs) xs ≡ xs
take-all [] = refl
take-all (x ∷ xs) = ground (arith, take-all xs)

-- The three cases of a round of the loop, for an entry with the index after `k`.
pub append_log-round :
    (log es : List LogEntry) (e : LogEntry) (k : ℕ)
    → e.index ≡ k + 1
    → k < 18446744073709551616
    → k ≤ length log
    → ((k < length log)
        × (has_term (get_elem? log k) e.term ≡ true)
        × (append_log log (e ∷ es) ≡ append_log log es))
      ⊎ (append_log log (e ∷ es) ≡ append_log (take k log ++ e ∷ []) es)
unfolding append_log
append_log-round log es e k f b l =
    let i : dec_word e.index ≡ k = omega arith in
    elim (Bool-cases (ltb k (length log))) [
      | inl g ↦ elim (Bool-cases (has_term (get_elem? log k) e.term)) [
        | inl h ↦ inl (ground arith, h, rw (i, g, h) refl)
        | inr h ↦ inr (rw (i, g, h) refl)
      ]
      | inr g ↦
          let m : length log ≡ k = ground arith in
          let t : take k log ≡ log = subst (λ j. take j log ≡ log) m (take-all log) in
          inr (rw (i, g, t) refl)
    ]

-- A log that takes over the entries after position `k`.
module _ (b : ℕ) (b_bound : b ≤ 18446744073709551616) where
  -- The entries before those received stay.
  pub append_log-before :
      (log es : List LogEntry) (k j : ℕ)
      → indexed k es ≡ true
      → k ≤ length log
      → k + length es < b
      → j < k
      → get_elem? (append_log log es) j ≡ get_elem? log j
  unfolding indexed
  append_log-before log [] k j h l m n = unfold append_log in refl
  append_log-before log (e ∷ es) k j h l m n =
      elim (append_log-round log es e k (ground arith) (omega (arith, b_bound)) l) [
        | inl (f, g, r) ↦ rw r (
            append_log-before log es (k + 1) j (ground arith) (omega arith) (omega arith)
              (omega arith))
        | inr r ↦
            let c = length-replaced e log k l in
            rw r (
              append_log-before (take k log ++ e ∷ []) es (k + 1) j (ground arith) (omega arith)
                (omega arith) (omega arith)
              ∙ replaced-before e log k l j n)
      ]

  pub append_log-indexed :
      (log es : List LogEntry) (k : ℕ)
      → indexed 0 log ≡ true
      → indexed k es ≡ true
      → k ≤ length log
      → k + length es < b
      → indexed 0 (append_log log es) ≡ true
  unfolding indexed
  append_log-indexed log [] k i h l m = unfold append_log in i
  append_log-indexed log (e ∷ es) k i h l m =
      elim (append_log-round log es e k (ground arith) (omega (arith, b_bound)) l) [
        | inl (f, g, r) ↦
            rw r (append_log-indexed log es (k + 1) i (ground arith) (omega arith) (omega arith))
        | inr r ↦
            let c = length-replaced e log k l in
            rw r (
              append_log-indexed (take k log ++ e ∷ []) es (k + 1)
                (indexed-replaced e log k l (ground arith) i) (ground arith) (omega arith)
                (omega arith))
      ]

  pub append_log-stores :
      (log es : List LogEntry) (k : ℕ)
      → indexed k es ≡ true
      → k ≤ length log
      → k + length es < b
      → stores (append_log log es) k es ≡ true
  unfolding indexed stores
  append_log-stores log [] k h l m = refl
  append_log-stores log (e ∷ es) k h l m =
      elim (append_log-round log es e k (ground arith) (omega (arith, b_bound)) l) [
        | inl (f, g, r) ↦
            let here =
              append_log-before log es (k + 1) k (ground arith) (omega arith) (omega arith)
                (omega arith) in
            let rest =
              append_log-stores log es (k + 1) (ground arith) (omega arith) (omega arith) in
            holds (sym r) (ground (arith, here, rest, g))
        | inr r ↦
            let c = length-replaced e log k l in
            let t = take k log ++ e ∷ [] in
            let here =
              append_log-before t es (k + 1) k (ground arith) (omega arith) (omega arith)
                (omega arith) in
            let rest = append_log-stores t es (k + 1) (ground arith) (omega arith) (omega arith) in
            holds (sym r) (ground (arith, here, rest, get_elem?-replaced e log k l))
      ]
    where
      holds :
          {t u : List LogEntry}
          → t ≡ u
          → (has_term (get_elem? t k) e.term && stores t (k + 1) es) ≡ true
          → (has_term (get_elem? u k) e.term && stores u (k + 1) es) ≡ true
      holds = subst (λ t. (has_term (get_elem? t k) e.term && stores t (k + 1) es) ≡ true)

  -- Entries that the log has already change nothing.
  pub append_log-stored :
      (log es : List LogEntry) (k : ℕ)
      → indexed k es ≡ true
      → k + length es < b
      → stores log k es ≡ true
      → append_log log es ≡ log
  unfolding indexed stores append_log
  append_log-stored log [] k h m n = refl
  append_log-stored log (e ∷ es) k h m n =
      let f : e.index ≡ k + 1 = ground arith in
      let i : dec_word e.index ≡ k = omega (arith, b_bound) in
      ground (arith, append_log-stored log es (k + 1), has_term-bound log k e.term)
    where
      has_term-bound :
          (log : List LogEntry) (k t : ℕ) → has_term (get_elem? log k) t ≡ true → k < length log
      has_term-bound [] k t h = absurd (ground arith)
      has_term-bound (x ∷ xs) zero t h = omega arith
      has_term-bound (x ∷ xs) (suc k) t h = omega (arith, has_term-bound xs k t h)
