-- ===== src/Raft/Histories.antt =====
-- The logs that the leaders of all terms have had in a cluster of Raft nodes
-- (tools/vf-evolve/tasks/raft_consensus/initial.rs), which no node keeps, and how the log and the
-- messages of a node agree with them.
use verified_concurrent.Base.{
  ℕ, suc, ◌+◌, ◌≤◌, ◌<◌, ◌≡◌, refl, ◌≢◌, ◌⊎◌, ◌∙◌, true, Option, none, some, List, [], ◌∷◌, arith,
  ◌==◌, if◌then◌else◌, length, get_elem?, contains, distinct, inl, inr,
}
use verified_concurrent.Base.Quorums.{common_element}
use verified_concurrent.Raft.State.{
  NodeState, LogEntry, Message, request_vote, request_vote_response, append_entries,
  append_entries_response, AppendEntries, NodeInner,
}
use verified_concurrent.Raft.Handlers.{is_leader, is_candidate}
use verified_concurrent.Raft.Ballots.{Ballots}
use verified_concurrent.Raft.Logs.{indexed}

-- For a term, its leader and what its leader's log is or was at the end of its lead.
pub record Histories : Type 0 where
  pub ruler : ℕ → Option ℕ
  pub log : ℕ → List LogEntry

-- Node `i` leads in the term with the log.
abbrev pub crown : Histories → ℕ → ℕ → List LogEntry → Histories
crown h t i l = record {
  ruler = λ u. if u == t then some i else h.ruler u;
  log = λ u. if u == t then l else h.log u;
}

-- Up to each of its entries, a log is that of the leader of the entry's term.
abbrev pub IsTold : Histories → List LogEntry → Type 0
IsTold h l =
    (k : ℕ) (e : LogEntry)
    → get_elem? l k ≡ some e
    → (j : ℕ) (x : LogEntry) → j ≤ k
    → get_elem? l j ≡ some x
    → get_elem? (h.log e.term) j ≡ some x

-- The entries of a message are those of the leader after the previous one, whose term it has.
pub record Sent (h : Histories) (a : AppendEntries) : Type 0 where
  pub entries :
      (k : ℕ) (e : LogEntry)
      → get_elem? a.entries k ≡ some e
      → get_elem? (h.log a.term) (a.prev_log_index + k) ≡ some e
  pub indices : indexed a.prev_log_index a.entries ≡ true
  pub previous :
      (j : ℕ)
      → a.prev_log_index ≡ suc j
      → (a.prev_log_term ≡ 0)
        ⊎ ((e : LogEntry) × (get_elem? (h.log a.term) j ≡ some e) × (e.term ≡ a.prev_log_term))

abbrev pub Fits : Histories → Message → Type 0
Fits h (append_entries a) = Sent h a
Fits h _ = true ≡ true

abbrev pub AllFit : Histories → List (ℕ × Message) → Type 0
AllFit h [] = true ≡ true
AllFit h ((to, m) ∷ ms) = Fits h m × AllFit h ms

-- What replication reads of a node.
pub record LogView : Type 0 where
  pub id : ℕ
  pub state : NodeState
  pub term : ℕ
  pub log : List LogEntry
  pub mail : List (ℕ × Message)

abbrev pub log_view : NodeInner → LogView
log_view s = record {
  id = s.id;
  state = s.state;
  term = s.current_term;
  log = s.log;
  mail = s.pending_messages;
}

pub record Matches (h : Histories) (v : LogView) : Type 0 where
  pub told : IsTold h v.log
  pub indices : indexed 0 v.log ≡ true
  pub leads : is_leader v.state ≡ true → (h.ruler v.term ≡ some v.id) × (h.log v.term ≡ v.log)
  pub runs : is_candidate v.state ≡ true → (0 < v.term) × (h.ruler v.term ≢ some v.id)
  pub future : (t : ℕ) → v.term < t → h.ruler t ≢ some v.id
  pub mail : AllFit h v.mail

-- More is told, by node `i` alone.
pub record Evolves (i : ℕ) (h h' : Histories) : Type 0 where
  pub grows :
      (t k : ℕ) (e : LogEntry) → get_elem? (h.log t) k ≡ some e → get_elem? (h'.log t) k ≡ some e
  pub came : (t j : ℕ) → j ≢ i → h'.ruler t ≡ some j → h.ruler t ≡ some j
  pub keeps : (t j : ℕ) → j ≢ i → h.ruler t ≡ some j → (h'.ruler t ≡ some j) × (h'.log t ≡ h.log t)

pub Evolves-refl : (i : ℕ) (h : Histories) → Evolves i h h
Evolves-refl i h = record {
  grows = λ t k e p. p;
  came = λ t j d p. p;
  keeps = λ t j d p. (p, refl);
}

module _ {i : ℕ} {h h' : Histories} (x : Evolves i h h') where
  pub IsTold-Evolves : (l : List LogEntry) → IsTold h l → IsTold h' l
  IsTold-Evolves l p k e f j y m g = x.grows e.term j y (p k e f j y m g)

  Sent-Evolves : (a : AppendEntries) → Sent h a → Sent h' a
  Sent-Evolves a s = record {
    entries = λ k e f. x.grows a.term (a.prev_log_index + k) e (s.entries k e f);
    indices = s.indices;
    previous = λ j f. elim (s.previous j f) [
      | inl z ↦ inl z
      | inr (e, g, t) ↦ inr (e, x.grows a.term j e g, t)
    ];
  }

  Fits-Evolves : (m : Message) → Fits h m → Fits h' m
  Fits-Evolves (request_vote r) f = refl
  Fits-Evolves (request_vote_response r) f = refl
  Fits-Evolves (append_entries a) f = Sent-Evolves a f
  Fits-Evolves (append_entries_response r) f = refl

  pub AllFit-Evolves : (ms : List (ℕ × Message)) → AllFit h ms → AllFit h' ms
  AllFit-Evolves [] f = refl
  AllFit-Evolves ((to, m) ∷ ms) (f, g) = (Fits-Evolves m f, AllFit-Evolves ms g)

  -- The other nodes match what is told then.
  pub Matches-Evolves : (v : LogView) → v.id ≢ i → Matches h v → Matches h' v
  Matches-Evolves v d m = record {
    told = IsTold-Evolves v.log m.told;
    indices = m.indices;
    leads = λ l. let (p, q) = m.leads l in let (r, s) = x.keeps v.term v.id d p in (r, s ∙ q);
    runs = λ c. let (p, q) = m.runs c in (p, λ z. q (x.came v.term v.id d z));
    future = λ t l z. m.future t l (x.came t v.id d z);
    mail = AllFit-Evolves v.mail m.mail;
  }

-- A majority has voted for the node in the term.
pub record Majority (ids : List ℕ) (b : Ballots) (t i : ℕ) : Type 0 where
  pub votes : List ℕ
  pub once : distinct votes ≡ true
  pub cast : (u : ℕ) → contains u votes ≡ true → (b t u ≡ some i) × (contains u ids ≡ true)
  pub many : length ids < length votes + length votes

pub one_majority :
    (ids : List ℕ) (b : Ballots) (t i j : ℕ) → Majority ids b t i → Majority ids b t j → i ≡ j
one_majority ids b t i j m k =
    let (u, p, q) =
      common_element m.votes k.votes ids m.once k.once (λ u e. (m.cast u e).1)
        (λ u e. (k.cast u e).1) (let x = m.many in let y = k.many in omega arith) in
    let x = (m.cast u p).0 in let y = (k.cast u q).0 in ground (arith, x, y)

-- The histories are of leaders that majorities elected, of logs no longer than `n`.
pub record Lawful (ids : List ℕ) (b : Ballots) (n : ℕ) (h : Histories) : Type 0 where
  pub origin : h.ruler 0 ≡ none
  pub empty : (t : ℕ) → h.ruler t ≡ none → h.log t ≡ []
  pub told : (t : ℕ) → IsTold h (h.log t)
  pub bound : (t k : ℕ) (e : LogEntry) → get_elem? (h.log t) k ≡ some e → k < n
  pub elected : (t i : ℕ) → h.ruler t ≡ some i → Majority ids b t i
