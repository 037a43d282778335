-- ===== src/RaftElection/Soundness.antt =====
-- How the servers and messages of tools/vf-evolve/tasks/raft_election/initial.rs agree with the ballots
-- of all terms, and that each call keeps it so.
use verified_concurrent.Base.{
  ℕ, ◌+◌, ◌≤◌, ◌<◌, ◌≡◌, refl, sym, subst, Bool, true, not, some, List, [], ◌∷◌, ◌++◌, arith, ◌==◌,
  ==_refl, leb, length, get_elem?, all, all-append, all-get_elem?, same_option→eq, Bool-cases,
  Option-cases, inl, inr,
}
use verified_concurrent.Base.Maps.{lookup, lookup-insert}
use verified_concurrent.Raft.Ballots.{
  Ballots, View, Agrees, Agrees-Extends, Extends, Extends-refl, later-Agrees,
}
use verified_concurrent.RaftElection.Server.{
  ok, VoteRequest, VoteResponse, Heartbeat, ServerInner, is_leader, adopt_term, start_election,
  answer_request, receive_response, follow,
}
use verified_concurrent.RaftElection.Cluster.{
  quorum_size, store, timeout, handle_vote_request, handle_vote_response, handle_heartbeat,
  create_heartbeat,
}
use verified_concurrent.RaftElection.Net.{
  Net, Event, times_out, is_asked, counts, beats, hears, with_request, with_response, time_out, ask,
  count, beat, hear, happen,
}
use verified_concurrent.RaftElection.Servers.{
  server_view, response_ok, Served, start_election-Served, follow-Agrees, adopt_term-Agrees,
  voted-Served, receive_response-Agrees,
}

-- The servers and the messages agree with the ballots.
pub record Sound (ids : List ℕ) (b : Ballots) (n : ℕ) (w : Net) : Type 0 where
  pub size : w.election.cluster_size ≡ length ids
  pub server :
      (i : ℕ) (g : ServerInner)
      → lookup i w.election.servers ≡ some g
      → Agrees ids b n (server_view w.election.cluster_size i g)
  pub requests : all (λ r. leb r.term n) w.requests ≡ true
  pub responses : all (response_ok ids b n) w.responses ≡ true
  pub heartbeats : all (λ m. leb m.term n) w.heartbeats ≡ true

abbrev pub IsSound : List ℕ → ℕ → Net → Type 0
IsSound ids n w = (b : Ballots) × Sound ids b n w

all-weaken {ℓ} :
    {A : Type ℓ} (p q : A → Bool) (xs : List A)
    → ((x : A) → p x ≡ true → q x ≡ true)
    → all p xs ≡ true
    → all q xs ≡ true
unfolding all
all-weaken p q [] f h = refl
all-weaken p q (x ∷ xs) f h = ground (arith, f x, all-weaken p q xs f)

pub all-pushed {ℓ} :
    {A : Type ℓ} (p : A → Bool) (xs : List A) (x : A)
    → all p xs ≡ true
    → p x ≡ true
    → all p (xs ++ x ∷ []) ≡ true
unfolding all
all-pushed p xs x h k = ground (arith, all-append p xs (x ∷ []))

response_ok-Extends :
    (ids : List ℕ) {b b' : Ballots} {i : ℕ} (n n' : ℕ)
    → Extends b b' i
    → n ≤ n'
    → (p : ℕ × VoteResponse) → response_ok ids b n p ≡ true
    → response_ok ids b' n' p ≡ true
response_ok-Extends ids {b} n n' x l (to, r) h = ground (
  arith,
  x.keeps r.term r.voter_id to,
  same_option→eq (b r.term r.voter_id) (some to),
  ==_refl to,
)

module _ (ids : List ℕ) {b : Ballots} {n : ℕ} (w : Net) (h : Sound ids b n w) where
  -- One server changes.
  replaced-Sound :
      {b' : Ballots} (i : ℕ) (g : ServerInner)
      → Extends b b' i
      → Agrees ids b' (n + 1) (server_view w.election.cluster_size i g)
      → Sound ids b' (n + 1) (record w { election = store w.election i g })
  replaced-Sound {b'} i g x a = record {
    size = h.size;
    server = λ j k f. elim (Bool-cases (j == i)) [
      | inl p ↦
          let e : g ≡ k = ground (arith, lookup-insert i j g w.election.servers) in
          let q : i ≡ j = ground arith in
          subst (λ k. Agrees ids b' (n + 1) (server_view w.election.cluster_size j k)) e
            (subst (λ j. Agrees ids b' (n + 1) (server_view w.election.cluster_size j g)) q a)
      | inr p ↦
          Agrees-Extends ids x (omega arith) (λ e. absurd (ground arith))
            (h.server j k (ground (arith, lookup-insert i j g w.election.servers)))
    ];
    requests =
        all-weaken (λ r. leb r.term n) (λ r. leb r.term (n + 1)) w.requests (λ r e. ground arith)
          h.requests;
    responses =
        all-weaken (response_ok ids b n) (response_ok ids b' (n + 1)) w.responses
          (response_ok-Extends ids n (n + 1) x (omega arith)) h.responses;
    heartbeats =
        all-weaken (λ r. leb r.term n) (λ r. leb r.term (n + 1)) w.heartbeats (λ r e. ground arith)
          h.heartbeats;
  }

  Served-Sound :
      (i : ℕ) (g : ServerInner)
      → Served ids b (n + 1) i (server_view w.election.cluster_size i g)
      → IsSound ids (n + 1) (record w { election = store w.election i g })
  Served-Sound i g (b', x, a) = (b', replaced-Sound i g x a)

  later-Sound : IsSound ids (n + 1) w
  later-Sound = (
    b,
    record {
      size = h.size;
      server = λ j k f. later-Agrees (h.server j k f) (n + 1) (omega arith);
      requests =
          all-weaken (λ r. leb r.term n) (λ r. leb r.term (n + 1)) w.requests (λ r e. ground arith)
            h.requests;
      responses =
          all-weaken (response_ok ids b n) (response_ok ids b (n + 1)) w.responses
            (response_ok-Extends ids n (n + 1) (Extends-refl b 0) (omega arith)) h.responses;
      heartbeats =
          all-weaken (λ r. leb r.term n) (λ r. leb r.term (n + 1)) w.heartbeats
            (λ r e. ground arith) h.heartbeats;
    },
  )

  kept-Served : (i : ℕ) (v : View) → Agrees ids b n v → Served ids b (n + 1) i v
  kept-Served i v a = (b, Extends-refl b i, later-Agrees a (n + 1) (omega arith))

  hear-Sound : (i : ℕ) (m : Heartbeat) → m.term ≤ n → IsSound ids (n + 1) (hear w i m)
  unfolding hear handle_heartbeat
  hear-Sound i m l = elim (Option-cases (lookup i w.election.servers)) [
    | inl e ↦ rw (e, handle_heartbeat) later-Sound
    | inr (g, e) ↦
        rw (e, handle_heartbeat)
          (Served-Sound i (follow m g) (kept-Served i _ (follow-Agrees i g (h.server i g e) m l)))
  ]

  count-Sound :
      (i : ℕ) (r : VoteResponse)
      → response_ok ids b n (i, r) ≡ true
      → IsSound ids (n + 1) (count w i r)
  unfolding count handle_vote_response
  count-Sound i r k = elim (Option-cases (lookup i w.election.servers)) [
    | inl e ↦ rw (e, handle_vote_response) later-Sound
    | inr (g, e) ↦
        rw (e, handle_vote_response)
          (Served-Sound i (receive_response (quorum_size w.election) r g).0 (
            kept-Served i _
              (receive_response-Agrees i (quorum_size w.election) r g refl k (h.server i g e))))
  ]

  time_out-Sound : (i : ℕ) → n + 1 < 18446744073709551616 → IsSound ids (n + 1) (time_out w i)
  unfolding time_out timeout
  time_out-Sound i l = elim (Option-cases (lookup i w.election.servers)) [
    | inl e ↦ rw (e, timeout) later-Sound
    | inr (g, e) ↦
        let (s, k) = start_election-Served i g (h.server i g e) l in
        let (b', z) = Served-Sound i (start_election i g) s in
        let q : timeout w.election i ≡ (
          store w.election i (start_election i g),
          ok (record { term = (start_election i g).current_term; candidate_id = i }),
        ) =
          rw (e, timeout) refl in
        subst (λ p. IsSound ids (n + 1) (with_request w p)) (sym q)
          (
            b',
            record {
              size = z.size;
              server = z.server;
              requests =
                  all-pushed (λ r. leb r.term (n + 1)) w.requests
                    (record { term = (start_election i g).current_term; candidate_id = i })
                    z.requests (ground arith);
              responses = z.responses;
              heartbeats = z.heartbeats;
            },
          )
  ]

  ask-Sound : (i : ℕ) (r : VoteRequest) → r.term ≤ n → IsSound ids (n + 1) (ask w i r)
  unfolding ask handle_vote_request answer_request
  ask-Sound i r l = elim (Option-cases (lookup i w.election.servers)) [
    | inl e ↦ rw (e, handle_vote_request) later-Sound
    | inr (g, e) ↦
        let adopted = adopt_term-Agrees i g (h.server i g e) r.term l in
        let (b', x, a, k) = voted-Served i (adopt_term g r.term) r adopted in
        let z =
          replaced-Sound i (answer_request i r g).0 x (later-Agrees a (n + 1) (omega arith)) in
        let q : handle_vote_request w.election i r
            ≡ (store w.election i (answer_request i r g).0, ok (answer_request i r g).1) =
          rw (e, handle_vote_request) refl in
        subst (λ p. IsSound ids (n + 1) (with_response w r.candidate_id p)) (sym q)
          (
            b',
            record {
              size = z.size;
              server = z.server;
              requests = z.requests;
              responses =
                  all-pushed (response_ok ids b' (n + 1)) w.responses
                    (r.candidate_id, (answer_request i r g).1) z.responses
                    (response_ok-Extends ids n (n + 1) (Extends-refl b' 0) (omega arith) _ k);
              heartbeats = z.heartbeats;
            },
          )
  ]

  beat-Sound : (i : ℕ) → IsSound ids (n + 1) (beat w i)
  unfolding beat create_heartbeat
  beat-Sound i = elim (Option-cases (lookup i w.election.servers)) [
    | inl e ↦ rw (e, create_heartbeat, beat) later-Sound
    | inr (g, e) ↦ elim (Bool-cases (not (is_leader g.state))) [
      | inl f ↦ rw (e, f, create_heartbeat, beat) later-Sound
      | inr f ↦
          let (b', z) = later-Sound in
          let a = h.server i g e in
          let l = a.bound in
          rw (e, f, create_heartbeat, beat)
            (
              b',
              record {
                size = z.size;
                server = z.server;
                requests = z.requests;
                responses = z.responses;
                heartbeats =
                    all-pushed (λ m. leb m.term (n + 1)) w.heartbeats
                      (record { term = g.current_term; leader_id = i }) z.heartbeats (ground arith);
              },
            )
    ]
  ]

  pub happen-Sound : (e : Event) → n + 1 < 18446744073709551616 → IsSound ids (n + 1) (happen w e)
  unfolding happen
  happen-Sound (times_out i) l = time_out-Sound i l
  happen-Sound (is_asked k i) l = elim (Option-cases (get_elem? w.requests k)) [
    | inl e ↦ rw (e, happen) later-Sound
    | inr (r, e) ↦
        let m = all-get_elem? (λ r. leb r.term n) w.requests k r h.requests e in
        rw (e, happen) (ask-Sound i r (ground arith))
  ]
  happen-Sound (counts k) l = elim (Option-cases (get_elem? w.responses k)) [
    | inl e ↦ rw (e, happen) later-Sound
    | inr ((i, r), e) ↦
        rw (e, happen)
          (count-Sound i r (all-get_elem? (response_ok ids b n) w.responses k (i, r) h.responses e))
  ]
  happen-Sound (beats i) l = beat-Sound i
  happen-Sound (hears k i) l = elim (Option-cases (get_elem? w.heartbeats k)) [
    | inl e ↦ rw (e, happen) later-Sound
    | inr (m, e) ↦
        let o = all-get_elem? (λ m. leb m.term n) w.heartbeats k m h.heartbeats e in
        rw (e, happen) (hear-Sound i m (ground arith))
  ]
