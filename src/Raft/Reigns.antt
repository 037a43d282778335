-- ===== src/Raft/Reigns.antt =====
-- What is told when a Raft node (tools/vf-evolve/tasks/raft_consensus/initial.rs) becomes the leader of
-- a term or adds to its log, and what the heartbeats that it sends then tell.
use verified_concurrent.Base.{
  ℕ, zero, suc, ◌+◌, ◌-◌, ◌≤◌, ◌<◌, ◌≡◌, refl, ◌⊎◌, ap, sym, subst, ◌∙◌, true, false, some, List,
  [], ◌∷◌, ◌++◌, map, retain, ==_refl, arith, ◌==◌, leb, if◌then◌else◌, length, get_elem?,
  Bool-cases, Option-cases, inl, inr,
}
use verified_concurrent.Base.Maps.{get_or}
use verified_concurrent.Raft.State.{leader, LogEntry, Message, NodeInner}
use verified_concurrent.Raft.Sending.{prev_term, heartbeat, send_heartbeats}
use verified_concurrent.Raft.Handlers.{is_leader}
use verified_concurrent.Raft.Ballots.{Ballots}
use verified_concurrent.Raft.Logs.{indexed}
use verified_concurrent.Raft.Histories.{
  Histories, crown, IsTold, Fits, AllFit, LogView, log_view, Matches, Evolves, IsTold-Evolves,
  AllFit-Evolves, Majority, Lawful,
}

module _ {h : Histories} (t i : ℕ) (l : List LogEntry) (only : (j : ℕ) → h.ruler t ≡ some j → j ≡ i)
    (longer : (k : ℕ) (e : LogEntry)
      → get_elem? (h.log t) k ≡ some e
      → get_elem? l k ≡ some e) where
  pub crown-Evolves : Evolves i h (crown h t i l)
  crown-Evolves = record {
    grows = λ u k e f. elim (Bool-cases (u == t)) [
      | inl p ↦ rw p (longer k e (subst (λ u. get_elem? (h.log u) k ≡ some e) (ground arith) f))
      | inr p ↦ rw p f
    ];
    came = λ u j d f. ground arith;
    keeps = λ u j d f. elim (Bool-cases (u == t)) [
      | inl p ↦ absurd (d (only j (subst (λ u. h.ruler u ≡ some j) (ground arith) f)))
      | inr p ↦ rw p (f, refl)
    ];
  }

  pub crown-Lawful :
      {ids : List ℕ} {b : Ballots} {n : ℕ}
      → 0 < t
      → IsTold (crown h t i l) l
      → ((k : ℕ) (e : LogEntry) → get_elem? l k ≡ some e → k < n)
      → Majority ids b t i
      → Lawful ids b n h
      → Lawful ids b n (crown h t i l)
  crown-Lawful {ids} {b} {n} z told short m w = record {
    origin = (let o = w.origin in ground arith);
    empty = λ u e. ground (arith, w.empty u);
    told = λ u. elim (Bool-cases (u == t)) [
      | inl p ↦ rw p told
      | inr p ↦ rw p (IsTold-Evolves crown-Evolves (h.log u) (w.told u))
    ];
    bound = λ u k e f. elim (Bool-cases (u == t)) [
      | inl p ↦ short k e (subst (λ c. get_elem? (if c then l else h.log u) k ≡ some e) p f)
      | inr p ↦ w.bound u k e (subst (λ c. get_elem? (if c then l else h.log u) k ≡ some e) p f)
    ];
    elected = λ u j f. elim (Bool-cases (u == t)) [
      | inl p ↦
          let q : t ≡ u = ground arith in
          let r : i ≡ j = ground arith in
          subst (λ u. Majority ids b u j) q (subst (Majority ids b t) r m)
      | inr p ↦ w.elected u j (ground arith)
    ];
  }

  pub crown-Matches :
      (v : LogView)
      → v.term ≡ t
      → v.id ≡ i
      → IsTold (crown h t i l) l
      → indexed 0 l ≡ true
      → Matches h v
      → Matches (crown h t i l) (record v { state = leader; log = l })
  crown-Matches v e f told x m = record {
    told = told;
    indices = x;
    leads = λ y. (ground (arith, ==_refl t), ground (arith, ==_refl t));
    runs = λ y. absurd (ground arith);
    future = λ u z y. m.future u z (ground arith);
    mail = AllFit-Evolves crown-Evolves v.mail m.mail;
  }

-- A log is told where it is so but for the entries of the new leader.
pub crown-IsTold :
    (h : Histories) (t i : ℕ) (l : List LogEntry)
    → ((k : ℕ) (e : LogEntry)
        → get_elem? l k ≡ some e
        → e.term == t ≡ false
        → (j : ℕ) (x : LogEntry) → j ≤ k
        → get_elem? l j ≡ some x
        → get_elem? (h.log e.term) j ≡ some x)
    → IsTold (crown h t i l) l
crown-IsTold h t i l p k e f j x m g = elim (Bool-cases (e.term == t)) [
  | inl q ↦ rw q g
  | inr q ↦ rw q (p k e f q j x m g)
]

pub get_elem?-pushed :
    (xs : List LogEntry) (y : LogEntry) (k : ℕ) (e : LogEntry)
    → get_elem? (xs ++ y ∷ []) k ≡ some e
    → (get_elem? xs k ≡ some e) ⊎ ((k ≡ length xs) × (y ≡ e))
get_elem?-pushed [] y zero e f = inr (refl, ground arith)
get_elem?-pushed [] y (suc k) e f = absurd (ground arith)
get_elem?-pushed (x ∷ xs) y zero e f = inl f
get_elem?-pushed (x ∷ xs) y (suc k) e f = elim (get_elem?-pushed xs y k e f) [
  | inl g ↦ inl g
  | inr (p, q) ↦ inr (ap suc p, q)
]

pub get_elem?-length :
    (xs : List LogEntry) (k : ℕ) (e : LogEntry) → get_elem? xs k ≡ some e → k < length xs
get_elem?-length [] k e f = absurd (ground arith)
get_elem?-length (x ∷ xs) zero e f = omega arith
get_elem?-length (x ∷ xs) (suc k) e f = omega (arith, get_elem?-length xs k e f)

retain-all :
    (i next : ℕ) (l : List LogEntry)
    → indexed i l ≡ true
    → next ≤ i + 1
    → retain (λ e. leb next e.index) l ≡ l
unfolding indexed retain
retain-all i next [] h m = refl
retain-all i next (x ∷ xs) h m = ground (arith, retain-all (i + 1) next xs)

indexed-retain :
    (i next : ℕ) (l : List LogEntry)
    → indexed i l ≡ true
    → i ≤ next - 1
    → indexed (next - 1) (retain (λ e. leb next e.index) l) ≡ true
unfolding indexed retain
indexed-retain i next [] h m = refl
indexed-retain i next (x ∷ xs) h m = elim (Bool-cases (leb next x.index)) [
  | inl p ↦
      let q : next - 1 ≡ i = ground arith in
      rw (p, q, retain-all (i + 1) next xs (ground arith) (ground arith)) (ground arith)
  | inr p ↦ rw p (indexed-retain (i + 1) next xs (ground arith) (ground arith))
]

get_elem?-retain :
    (i next : ℕ) (l : List LogEntry) (k : ℕ) (e : LogEntry)
    → indexed i l ≡ true
    → get_elem? (retain (λ e. leb next e.index) l) k ≡ some e
    → get_elem? l (next - 1 - i + k) ≡ some e
unfolding indexed retain
get_elem?-retain i next [] k e h f = absurd (ground arith)
get_elem?-retain i next (x ∷ xs) k e h f = elim (Bool-cases (leb next x.index)) [
  | inl p ↦
      let q : next - 1 - i + k ≡ k = ground arith in
      let r = retain-all (i + 1) next xs (ground arith) (ground arith) in rw q (ground (arith, r))
  | inr p ↦
      let q : next - 1 - i + k ≡ suc (next - 1 - (i + 1) + k) = ground arith in
      rw q (get_elem?-retain (i + 1) next xs k e (ground arith) (ground arith))
]

prev_term-cases :
    (l : List LogEntry) (n j : ℕ)
    → n ≡ suc j
    → (prev_term l n ≡ 0) ⊎ ((e : LogEntry) × (get_elem? l j ≡ some e) × (e.term ≡ prev_term l n))
prev_term-cases l n j q = elim (Option-cases (get_elem? l j)) [
  | inl f ↦ inl (rw (q, f) refl)
  | inr (e, f) ↦ inr (e, f, rw (q, f) refl)
]

-- What a leader sends is in its log.
heartbeat-Fits :
    (h : Histories) (s : NodeInner) (peer : ℕ)
    → h.log s.current_term ≡ s.log
    → indexed 0 s.log ≡ true
    → Fits h (heartbeat s peer)
unfolding heartbeat
heartbeat-Fits h s peer g x =
    let next = get_or 1 peer s.next_index in
    record {
      entries = λ k e f.
          ap (λ l. get_elem? l (next - 1 + k)) g
          ∙ subst (λ j. get_elem? s.log j ≡ some e) (omega arith)
              (get_elem?-retain 0 next s.log k e x f);
      indices = indexed-retain 0 next s.log x (omega arith);
      previous = λ j q.
          subst
            (λ l.
              (prev_term s.log (next - 1) ≡ 0)
              ⊎ ((e : LogEntry) × (get_elem? l j ≡ some e) × (e.term ≡ prev_term s.log (next - 1))))
            (sym g) (prev_term-cases s.log (next - 1) j q);
    }

pub AllFit-append :
    (h : Histories) (xs ys : List (ℕ × Message)) → AllFit h xs → AllFit h ys → AllFit h (xs ++ ys)
AllFit-append h [] ys p q = q
AllFit-append h ((to, m) ∷ xs) ys (p, r) q = (p, AllFit-append h xs ys r q)

pub AllFit-map :
    (h : Histories) (f : ℕ → Message) (ps : List ℕ)
    → ((p : ℕ) → Fits h (f p))
    → AllFit h (map (λ p. (p, f p)) ps)
AllFit-map h f [] p = refl
AllFit-map h f (x ∷ xs) p = (p x, AllFit-map h f xs p)

pub mailed-Matches :
    {h : Histories} {v : LogView} (ms : List (ℕ × Message))
    → Matches h v
    → AllFit h ms
    → Matches h (record v { mail = v.mail ++ ms })
mailed-Matches {h} {v} ms m f = record {
  told = m.told;
  indices = m.indices;
  leads = m.leads;
  runs = m.runs;
  future = m.future;
  mail = AllFit-append h v.mail ms m.mail f;
}

pub send_heartbeats-Matches :
    (h : Histories) (s : NodeInner)
    → is_leader s.state ≡ true
    → Matches h (log_view s)
    → Matches h (log_view (send_heartbeats s))
unfolding send_heartbeats
send_heartbeats-Matches h s l m =
    mailed-Matches _ m
      (AllFit-map h (heartbeat s) s.peers (λ p. heartbeat-Fits h s p (m.leads l).1 m.indices))
