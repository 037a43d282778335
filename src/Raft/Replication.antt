-- ===== src/Raft/Replication.antt =====
-- The log of a follower (tools/vf-evolve/tasks/raft_consensus/initial.rs) that takes the entries of a
-- leader, against the logs of all leaders.
use verified_concurrent.Base.{
  ℕ, suc, ◌+◌, ◌-◌, ◌≤◌, ◌<◌, ◌≡◌, refl, subst, true, some, List, [], ◌∷◌, ◌++◌, arith, ◌==◌,
  length, get_elem?, take, Bool-cases, Option-cases, inl, inr,
}
use verified_concurrent.Raft.State.{LogEntry, AppendEntries}
use verified_concurrent.Raft.Handlers.{append_log, log_consistent}
use verified_concurrent.Raft.Ballots.{Ballots}
use verified_concurrent.Raft.Logs.{
  indexed, append_log-round, length-replaced, get_elem?-replaced, replaced-before, indexed-replaced,
}
use verified_concurrent.Raft.Commits.{get_elem?-some}
use verified_concurrent.Raft.Follow.{consistent-bound}
use verified_concurrent.Raft.Histories.{Histories, IsTold, Sent, Lawful}
use verified_concurrent.Raft.Reigns.{get_elem?-length}

module _ (h : Histories) (t : ℕ) (told : IsTold h (h.log t)) where
  prefix-IsTold :
      (l : List LogEntry)
      → ((j : ℕ) (x : LogEntry) → get_elem? l j ≡ some x → get_elem? (h.log t) j ≡ some x)
      → IsTold h l
  prefix-IsTold l p k e f j x m g = told k e (p k e f) j x m (p j x g)

  -- Entries of one term at one position of two such logs are the same.
  same_entry :
      (l : List LogEntry) (k : ℕ) (x e : LogEntry)
      → IsTold h l
      → get_elem? l k ≡ some x
      → get_elem? (h.log t) k ≡ some e
      → x.term ≡ e.term
      → x ≡ e
  same_entry l k x e p f g q =
      let u = p k x f k x (omega arith) f in
      let v = told k e g k e (omega arith) g in
      let w = subst (λ t. get_elem? (h.log t) k ≡ some x) q u in ground (arith, v, w)

  module _
      (short : (k : ℕ) (e : LogEntry)
        → get_elem? (h.log t) k ≡ some e
        → k < 18446744073709551616) where
    append_log-IsTold :
        (log es : List LogEntry) (k : ℕ)
        → IsTold h log
        → indexed 0 log ≡ true
        → k ≤ length log
        → ((j : ℕ) (x : LogEntry)
            → j < k
            → get_elem? log j ≡ some x
            → get_elem? (h.log t) j ≡ some x)
        → ((j : ℕ) (x : LogEntry) → get_elem? es j ≡ some x → get_elem? (h.log t) (k + j) ≡ some x)
        → indexed k es ≡ true
        → IsTold h (append_log log es) × (indexed 0 (append_log log es) ≡ true)
    unfolding indexed
    append_log-IsTold log [] k p i l a s x = unfold append_log in (p, i)
    append_log-IsTold log (e ∷ es) k p i l a s x =
        let here : get_elem? (h.log t) k ≡ some e =
          subst (λ j. get_elem? (h.log t) j ≡ some e) (omega arith) (s 0 e refl) in
        let next : (j : ℕ) (y : LogEntry)
            → get_elem? es j ≡ some y
            → get_elem? (h.log t) (k + 1 + j) ≡ some y =
          λ j y f. subst (λ j. get_elem? (h.log t) j ≡ some y) (omega arith) (s (suc j) y f) in
        elim (append_log-round log es e k (ground arith) (short k e here) l) [
          | inl (f, g, r) ↦
              let (y, z) = get_elem?-some k log f in
              let same : y ≡ e = same_entry log k y e p z here (ground (arith, g, z)) in
              rw r (
                append_log-IsTold log es (k + 1) p i (omega arith)
                  (λ j w m q. elim (Bool-cases (j == k)) [
                    | inl c ↦ at_entry j k w e c here (ground (arith, z, same))
                    | inr c ↦ a j w (ground arith) q
                  ])
                  next (ground arith))
          | inr r ↦
              let l1 = take k log ++ e ∷ [] in
              let c = length-replaced e log k l in
              let agree : (j : ℕ) (y : LogEntry)
                  → get_elem? l1 j ≡ some y
                  → get_elem? (h.log t) j ≡ some y =
                λ j y q.
                  let m = get_elem?-length l1 j y q in
                  elim (Bool-cases (j == k)) [
                    | inl d ↦ at_entry j k y e d here (ground (arith, get_elem?-replaced e log k l))
                    | inr d ↦ a j y (ground arith) (ground (arith, replaced-before e log k l j))
                  ] in
              rw r (
                append_log-IsTold l1 es (k + 1) (prefix-IsTold l1 agree)
                  (indexed-replaced e log k l (ground arith) i) (omega arith)
                  (λ j y m q. agree j y q) next (ground arith))
        ]
      where
        at_entry :
            (j k : ℕ) (w e : LogEntry)
            → j == k ≡ true
            → get_elem? (h.log t) k ≡ some e
            → w ≡ e
            → get_elem? (h.log t) j ≡ some w
        at_entry j k w e c f g = ground (arith, g, f)

module _ {ids : List ℕ} {b : Ballots} {n : ℕ} (h : Histories) (lawful : Lawful ids b n h)
    (log : List LogEntry) (a : AppendEntries) (told : IsTold h log) (sent : Sent h a) where
  -- A log that is consistent with a message is that of the leader up to the previous entry.
  consistent_before :
      (q : ℕ)
      → a.prev_log_index ≡ suc q
      → log_consistent log a.prev_log_index a.prev_log_term ≡ true
      → (j : ℕ) (x : LogEntry) → j < suc q
      → get_elem? log j ≡ some x
      → get_elem? (h.log a.term) j ≡ some x
  consistent_before q p c j x m f =
      let d = subst (λ k. log_consistent log k a.prev_log_term ≡ true) p c in
      elim (Option-cases (get_elem? log q)) [
        | inl e ↦ absurd (ground arith)
        | inr (y, e) ↦
            let u = told q y e j x (omega arith) f in
            let w = told q y e q y (omega arith) e in
            elim (sent.previous q p) [
              | inl z ↦
                  let none_told : h.log y.term ≡ [] =
                    subst (λ t. h.log t ≡ []) (ground arith) (lawful.empty 0 lawful.origin) in
                  absurd (ground arith)
              | inr (v, g, t) ↦
                  let (y', k) =
                    get_elem?-some j (h.log a.term)
                      (let i = get_elem?-length (h.log a.term) q v g in omega arith) in
                  let r = lawful.told a.term q v g j y' (omega arith) k in
                  let same : y.term ≡ v.term = ground arith in
                  let z = subst (λ t. get_elem? (h.log t) j ≡ some x) same u in
                  ground (arith, z, r, k)
            ]
      ]

  -- So is the log with the entries of the message.
  pub received-IsTold :
      n < 18446744073709551616
      → indexed 0 log ≡ true
      → log_consistent log a.prev_log_index a.prev_log_term ≡ true
      → IsTold h (append_log log a.entries) × (indexed 0 (append_log log a.entries) ≡ true)
  received-IsTold l i c =
      append_log-IsTold h a.term (lawful.told a.term)
        (λ k e g. let m = lawful.bound a.term k e g in omega arith) log a.entries a.prev_log_index
        told i (consistent-bound log a.prev_log_index a.prev_log_term c)
        (λ j x m g. consistent_before (a.prev_log_index - 1) (omega arith) c j x (omega arith) g)
        sent.entries sent.indices
