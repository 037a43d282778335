-- ===== src/Raft/Ballots.antt =====
-- Who voted for whom in a cluster of Raft nodes (tools/vf-evolve/tasks/raft_consensus/initial.rs):
-- the ballots of all terms, which no node keeps, and how the state of a node agrees with them.
use verified_concurrent.Base.{
  ℕ, ◌+◌, ◌≤◌, ◌<◌, ◌≡◌, refl, sym, ◌∙◌, ◌≢◌, Bool, true, false, ◌&&◌, ◌||◌, not, Option, none,
  some, List, [], ◌∷◌, ◌++◌, arith, ◌==◌, leb, if◌then◌else◌, length, contains, distinct, all,
  all-append, same_option, same_option→eq, ==_refl,
}
use verified_concurrent.Raft.State.{
  NodeState, follower, Message, request_vote, request_vote_response, append_entries,
  append_entries_response, NodeInner, quorum_size,
}
use verified_concurrent.Raft.Handlers.{is_leader}

-- For a term and a node, the candidate that the node voted for in that term.
abbrev pub Ballots : Type 0
Ballots = ℕ → ℕ → Option ℕ

abbrev pub cast : Ballots → ℕ → ℕ → ℕ → Ballots
cast b t i c = λ u j. if u == t && j == i then some c else b u j

-- What an election reads of a node.
pub record View : Type 0 where
  pub id : ℕ
  pub size : ℕ
  pub state : NodeState
  pub term : ℕ
  pub voted : Option ℕ
  pub votes : List ℕ
  pub mail : List (ℕ × Message)

abbrev pub view : NodeInner → View
view s = record {
  id = s.id;
  size = length s.peers + 1;
  state = s.state;
  term = s.current_term;
  voted = s.voted_for;
  votes = s.votes_received;
  mail = s.pending_messages;
}

abbrev pub is_follower : NodeState → Bool
is_follower follower = true
is_follower _ = false

abbrev pub term_of : Message → ℕ
term_of (request_vote r) = r.term
term_of (request_vote_response r) = r.term
term_of (append_entries a) = a.term
term_of (append_entries_response r) = r.term

-- A granted vote that is sent to a node is a vote for it.
abbrev pub vote_ok : List ℕ → Ballots → ℕ → Message → Bool
vote_ok ids b to (request_vote_response r) =
    not r.vote_granted || (same_option (b r.term r.voter_id) (some to) && contains r.voter_id ids)
vote_ok ids b to _ = true

abbrev pub mail_ok : List ℕ → Ballots → ℕ → ℕ × Message → Bool
mail_ok ids b n (to, m) = leb (term_of m) n && vote_ok ids b to m

-- The node agrees with the ballots, and no term is above `n`.
pub record Agrees (ids : List ℕ) (b : Ballots) (n : ℕ) (v : View) : Type 0 where
  pub size : v.size ≡ length ids
  pub member : contains v.id ids ≡ true
  pub bound : v.term ≤ n
  pub vote : (c : ℕ) → b v.term v.id ≡ some c → v.voted ≡ some c
  pub future : (t : ℕ) → v.term < t → b t v.id ≡ none
  pub votes :
      is_follower v.state ≡ false
      → (u : ℕ) → contains u v.votes ≡ true
      → (b v.term u ≡ some v.id) × (contains u ids ≡ true)
  pub once : is_follower v.state ≡ false → distinct v.votes ≡ true
  pub majority : is_leader v.state ≡ true → quorum_size v.size ≤ length v.votes
  pub mail : all (mail_ok ids b n) v.mail ≡ true

-- More ballots, all of them of one node.
pub record Extends (b b' : Ballots) (i : ℕ) : Type 0 where
  pub keeps : (t u c : ℕ) → b t u ≡ some c → b' t u ≡ some c
  pub others : (t u : ℕ) → u ≢ i → b' t u ≡ b t u

pub Extends-refl : (b : Ballots) (i : ℕ) → Extends b b i
Extends-refl b i = record { keeps = λ t u c e. e; others = λ t u d. refl }

pub cast-Extends :
    (b : Ballots) (t i c : ℕ) → ((d : ℕ) → b t i ≡ some d → d ≡ c) → Extends b (cast b t i c) i
cast-Extends b t i c h = record {
  keeps = λ u j d e. ground (arith, h d);
  others = λ u j d. ground arith;
}

module _ (ids : List ℕ) {b b' : Ballots} {n n' i : ℕ} (x : Extends b b' i) (l : n ≤ n') where
  vote_ok-Extends : (to : ℕ) (m : Message) → vote_ok ids b to m ≡ true → vote_ok ids b' to m ≡ true
  vote_ok-Extends to (request_vote r) h = refl
  vote_ok-Extends to (request_vote_response r) h = ground (
    arith,
    x.keeps r.term r.voter_id to,
    same_option→eq (b r.term r.voter_id) (some to),
    ==_refl to,
  )
  vote_ok-Extends to (append_entries a) h = refl
  vote_ok-Extends to (append_entries_response r) h = refl

  pub mail-Extends :
      (ms : List (ℕ × Message))
      → all (mail_ok ids b n) ms ≡ true
      → all (mail_ok ids b' n') ms ≡ true
  unfolding all
  mail-Extends [] h = refl
  mail-Extends ((to, m) ∷ ms) h = ground (arith, vote_ok-Extends to m, mail-Extends ms)

  -- The other nodes agree with the further ballots too.
  pub Agrees-Extends : {v : View} → v.id ≢ i → Agrees ids b n v → Agrees ids b' n' v
  Agrees-Extends {v} d h = record {
    size = h.size;
    member = h.member;
    bound = (let e = h.bound in omega arith);
    vote = λ c e. h.vote c (sym (x.others v.term v.id d) ∙ e);
    future = λ t e. ground (arith, h.future t e, x.others t v.id);
    votes = λ f u m. let (p, q) = h.votes f u m in (x.keeps v.term u v.id p, q);
    once = h.once;
    majority = h.majority;
    mail = mail-Extends v.mail h.mail;
  }

module _ {ids : List ℕ} {b : Ballots} {n : ℕ} {v : View} (h : Agrees ids b n v) where
  open h use {size, member, bound, vote, future, votes, once, majority, mail}

  pub later-Agrees : (n' : ℕ) → n ≤ n' → Agrees ids b n' v
  later-Agrees n' l = record {
    size = size;
    member = member;
    bound = omega (arith, bound);
    vote = vote;
    future = future;
    votes = votes;
    once = once;
    majority = majority;
    mail = mail-Extends ids (Extends-refl b 0) l v.mail mail;
  }

  -- More messages, in order.
  pub sent-Agrees :
      (ms : List (ℕ × Message))
      → all (mail_ok ids b n) ms ≡ true
      → Agrees ids b n (record v { mail = v.mail ++ ms })
  sent-Agrees ms k = record {
    size = size;
    member = member;
    bound = bound;
    vote = vote;
    future = future;
    votes = votes;
    once = once;
    majority = majority;
    mail = ground (arith, all-append (mail_ok ids b n) v.mail ms);
  }

  pub cleared-Agrees : Agrees ids b n (record v { mail = [] })
  cleared-Agrees = record {
    size = size;
    member = member;
    bound = bound;
    vote = vote;
    future = future;
    votes = votes;
    once = once;
    majority = majority;
    mail = (unfold all in refl);
  }

  pub follower-Agrees : Agrees ids b n (record v { state = follower })
  follower-Agrees = record {
    size = size;
    member = member;
    bound = bound;
    vote = vote;
    future = future;
    votes = λ f. absurd (ground arith);
    once = λ f. absurd (ground arith);
    majority = λ f. absurd (ground arith);
    mail = mail;
  }

  -- A higher term, in which the node has not voted.
  pub stepped-Agrees :
      (t : ℕ)
      → v.term < t
      → t ≤ n
      → Agrees ids b n (record v { term = t; state = follower; voted = none; votes = [] })
  stepped-Agrees t l k = record {
    size = size;
    member = member;
    bound = k;
    vote = λ c e. absurd (ground (arith, future t l));
    future = λ u m. future u (omega arith);
    votes = λ f. absurd (ground arith);
    once = λ f. absurd (ground arith);
    majority = λ f. absurd (ground arith);
    mail = mail;
  }
