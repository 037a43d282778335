-- ===== src/Raft/Votes.antt =====
-- How the elections of a Raft node (tools/vf-evolve/tasks/raft_consensus/initial.rs) agree with the
-- ballots: a vote, the start of an election and the count of a vote.
use verified_concurrent.Base.{
  ℕ, ◌+◌, ◌≤◌, ◌<◌, ◌≡◌, refl, subst, Bool, true, false, ◌&&◌, ◌||◌, not, some, List, [], ◌∷◌, ◌++◌,
  map, arith, ◌==◌, leb, ltb, if◌then◌else◌, length, contains, contains-append, distinct, all,
  same_option→eq, Bool-cases, inl, inr,
}
use verified_concurrent.Base.Quorums.{distinct-append}
use verified_concurrent.Raft.State.{
  NodeState, candidate, leader, Message, request_vote_response, RequestVote, VoteResponse,
  NodeInner, quorum_size, inc_word,
}
use verified_concurrent.Raft.Sending.{vote_request, start_election, heartbeat, send_heartbeats}
use verified_concurrent.Raft.Handlers.{
  is_leader, is_candidate, elected, grants, answer_vote, adopt_term, handle_request_vote,
  become_leader, count_vote, handle_vote_response,
}
use verified_concurrent.Raft.Ballots.{
  Ballots, cast, View, view, is_follower, mail_ok, Agrees, Extends, Extends-refl, cast-Extends,
  mail-Extends, sent-Agrees, stepped-Agrees,
}

-- What a step of a node leaves: further ballots of the node, with which it agrees.
abbrev pub Moved : List ℕ → Ballots → ℕ → ℕ → View → Type 0
Moved ids b n i v = (b' : Ballots) × Extends b b' i × Agrees ids b' n v × (v.id ≡ i)

all-map :
    (p : ℕ × Message → Bool) (f : ℕ → Message) (xs : List ℕ)
    → ((x : ℕ) → p (x, f x) ≡ true)
    → all p (map (λ x. (x, f x)) xs) ≡ true
unfolding all
all-map p f [] h = refl
all-map p f (x ∷ xs) h = ground (arith, h x, all-map p f xs h)

-- A vote for a candidate, where the node has not voted for another one.
pub voted-Agrees :
    {ids : List ℕ} {b : Ballots} {n : ℕ} {v : View} (c : ℕ)
    → Agrees ids b n v
    → ((d : ℕ) → v.voted ≡ some d → d ≡ c)
    → Extends b (cast b v.term v.id c) v.id
      × Agrees ids (cast b v.term v.id c) n (record v { voted = some c })
voted-Agrees {ids} {b} {n} {v} c h free =
    let x = cast-Extends b v.term v.id c (λ d e. free d (h.vote d e)) in
    (
      x,
      record {
        size = h.size;
        member = h.member;
        bound = h.bound;
        vote = λ d e. ground arith;
        future = λ t l. ground (arith, h.future t l);
        votes = λ f u m. let (p, q) = h.votes f u m in (x.keeps v.term u v.id p, q);
        once = h.once;
        majority = h.majority;
        mail = mail-Extends ids x (omega arith) v.mail h.mail;
      },
    )

pub all-one {ℓ} : {A : Type ℓ} (p : A → Bool) (x : A) → p x ≡ true → all p (x ∷ []) ≡ true
unfolding all
all-one p x h = ground arith

grants-free :
    (s : NodeInner) (r : RequestVote)
    → grants s r ≡ true
    → (d : ℕ) → s.voted_for ≡ some d
    → d ≡ r.candidate_id
unfolding grants
grants-free s r g d e = ground arith

answer_vote-Moved :
    {ids : List ℕ} {b : Ballots} {n : ℕ} (s : NodeInner) (r : RequestVote)
    → Agrees ids b n (view s)
    → Moved ids b n s.id (view (answer_vote s r))
unfolding answer_vote
answer_vote-Moved {ids} {b} {n} s r h =
    let l = h.bound in
    let e = h.member in
    elim (Bool-cases (grants s r)) [
      | inl g ↦
          let (x, k) = voted-Agrees r.candidate_id h (grants-free s r g) in
          let b' = cast b s.current_term s.id r.candidate_id in
          rw g (b', x, sent-Agrees k _ (all-one (mail_ok ids b' n) _ (ground arith)), refl)
      | inr g ↦ rw g (
        b,
        Extends-refl b s.id,
        sent-Agrees h _ (all-one (mail_ok ids b n) _ (ground arith)),
        refl,
      )
    ]

adopt_term-Agrees :
    {ids : List ℕ} {b : Ballots} {n : ℕ} (s : NodeInner) (t : ℕ)
    → t ≤ n
    → Agrees ids b n (view s)
    → Agrees ids b n (view (adopt_term s t))
adopt_term-Agrees s t l h = elim (Bool-cases (ltb s.current_term t)) [
  | inl e ↦ rw e (stepped-Agrees h t (ground arith) l)
  | inr e ↦ rw e h
]

adopt_term-id : (s : NodeInner) (t : ℕ) → (adopt_term s t).id ≡ s.id
adopt_term-id s t = ground arith

pub handle_request_vote-Moved :
    {ids : List ℕ} {b : Ballots} {n : ℕ} (s : NodeInner) (r : RequestVote)
    → r.term ≤ n
    → Agrees ids b n (view s)
    → Moved ids b n s.id (view (handle_request_vote s r))
unfolding handle_request_vote
handle_request_vote-Moved {ids} {b} {n} s r l h =
    subst (λ i. Moved ids b n i (view (answer_vote (adopt_term s r.term) r)))
      (adopt_term-id s r.term)
      (answer_vote-Moved (adopt_term s r.term) r (adopt_term-Agrees s r.term l h))

-- The vote of a candidate for itself, in a term that it has not voted in.
pub started-Agrees :
    {ids : List ℕ} {b : Ballots} {n : ℕ} {v : View}
    → Agrees ids b n v
    → Extends b (cast b (v.term + 1) v.id v.id) v.id
      × Agrees ids
          (cast b (v.term + 1) v.id v.id)
          (n + 1)
          (record v { state = candidate; term = v.term + 1; voted = some v.id; votes = v.id ∷ [] })
unfolding contains distinct
started-Agrees {ids} {b} {n} {v} h =
    let x =
      cast-Extends b (v.term + 1) v.id v.id
        (λ d f. absurd (ground (arith, h.future (v.term + 1) (omega arith)))) in
    (
      x,
      record {
        size = h.size;
        member = h.member;
        bound = (let l = h.bound in omega arith);
        vote = λ d e. ground arith;
        future = λ t l. ground (arith, h.future t);
        votes = λ f u m. let e = h.member in ground arith;
        once = λ f. refl;
        majority = λ f. absurd (ground arith);
        mail = mail-Extends ids x (omega arith) v.mail h.mail;
      },
    )

pub start_election-Moved :
    {ids : List ℕ} {b : Ballots} {n : ℕ} (s : NodeInner)
    → n + 1 < 18446744073709551616
    → Agrees ids b n (view s)
    → Moved ids b (n + 1) s.id (view (start_election s))
unfolding start_election vote_request
start_election-Moved {ids} {b} {n} s l h =
    let k = h.bound in
    let e : inc_word s.current_term ≡ s.current_term + 1 = omega arith in
    let b' = cast b (s.current_term + 1) s.id s.id in
    let (x, started) = started-Agrees h in
    (
      b',
      x,
      rw e (sent-Agrees started _ (all-map (mail_ok ids b' (n + 1)) _ s.peers (λ p. ground arith))),
      refl,
    )

pub send_heartbeats-Agrees :
    {ids : List ℕ} {b : Ballots} {n : ℕ} (s : NodeInner)
    → Agrees ids b n (view s)
    → Agrees ids b n (view (send_heartbeats s))
unfolding send_heartbeats heartbeat
send_heartbeats-Agrees {ids} {b} {n} s h =
    let l = h.bound in
    sent-Agrees h _ (all-map (mail_ok ids b n) (heartbeat s) s.peers (λ p. ground arith))

-- A vote for the node that it has not counted yet.
pub counted-Agrees :
    {ids : List ℕ} {b : Ballots} {n : ℕ} {v : View} (u : ℕ)
    → Agrees ids b n v
    → is_leader v.state ≡ false
    → b v.term u ≡ some v.id
    → contains u ids ≡ true
    → contains u v.votes ≡ false
    → Agrees ids b n (record v { votes = v.votes ++ u ∷ [] })
unfolding contains distinct
counted-Agrees {v = v} u h f e m k = record {
  size = h.size;
  member = h.member;
  bound = h.bound;
  vote = h.vote;
  future = h.future;
  votes = λ g w i. ground (arith, contains-append v.votes (u ∷ []) w, h.votes g w);
  once = λ g. distinct-append v.votes (u ∷ []) (h.once g) refl (λ w i. ground arith);
  majority = λ g. absurd (ground arith);
  mail = h.mail;
}

-- A candidate with a majority becomes the leader.
pub elected-Agrees :
    {ids : List ℕ} {b : Ballots} {n : ℕ} {v : View}
    → Agrees ids b n v
    → is_candidate v.state ≡ true
    → quorum_size v.size ≤ length v.votes
    → Agrees ids b n (record v { state = leader })
elected-Agrees {v = v} h c q = record {
  size = h.size;
  member = h.member;
  bound = h.bound;
  vote = h.vote;
  future = h.future;
  votes = λ f. h.votes (candidate_leads v.state c);
  once = λ f. h.once (candidate_leads v.state c);
  majority = λ f. q;
  mail = h.mail;
}
  where
    candidate_leads : (c : NodeState) → is_candidate c ≡ true → is_follower c ≡ false
    candidate_leads c e = ground arith

received-Agrees :
    {ids : List ℕ} {b : Ballots} {n : ℕ} (s : NodeInner)
    → is_candidate s.state ≡ true
    → Agrees ids b n (view s)
    → Agrees ids b n (
        view (
          if leb (quorum_size (length s.peers + 1)) (length s.votes_received)
          then become_leader s
          else s))
unfolding become_leader elected
received-Agrees s c h =
    elim (Bool-cases (leb (quorum_size (length s.peers + 1)) (length s.votes_received))) [
      | inl e ↦ rw e (send_heartbeats-Agrees (elected s) (elected-Agrees h c (ground arith)))
      | inr e ↦ rw e h
    ]

count_vote-Agrees :
    {ids : List ℕ} {b : Ballots} {n : ℕ} (s : NodeInner) (r : VoteResponse)
    → mail_ok ids b n (s.id, request_vote_response r) ≡ true
    → is_candidate s.state ≡ true
    → r.term ≡ s.current_term
    → Agrees ids b n (view s)
    → Agrees ids b n (view (count_vote s r))
unfolding count_vote
count_vote-Agrees {ids} {b} {n} s r k c t h =
    elim (Bool-cases (r.vote_granted && not (contains r.voter_id s.votes_received))) [
      | inl e ↦ rw e (
          received-Agrees (record s { votes_received = s.votes_received ++ r.voter_id ∷ [] }) c
            (counted-Agrees r.voter_id h (ground arith)
              (ground (arith, same_option→eq (b r.term r.voter_id) (some s.id))) (ground arith)
              (ground arith)))
      | inr e ↦ rw e (received-Agrees s c h)
    ]

pub handle_vote_response-Agrees :
    {ids : List ℕ} {b : Ballots} {n : ℕ} (s : NodeInner) (r : VoteResponse)
    → mail_ok ids b n (s.id, request_vote_response r) ≡ true
    → Agrees ids b n (view s)
    → Agrees ids b n (view (handle_vote_response s r))
unfolding handle_vote_response
handle_vote_response-Agrees {ids} {b} {n} s r k h = elim (Bool-cases (ltb s.current_term r.term)) [
  | inl e ↦ rw e (stepped-Agrees h r.term (ground arith) (ground arith))
  | inr e ↦ elim (Bool-cases (not (is_candidate s.state) || not (r.term == s.current_term))) [
    | inl f ↦ rw (e, f) h
    | inr f ↦ rw (e, f) (count_vote-Agrees s r k (ground arith) (ground arith) h)
  ]
]
