-- ===== src/TreiberModel/Guards.antt =====
-- What `StackModel::actions` (crates/vf-stateright/src/treiber_stack.rs) ensures of the actions that
-- it offers: a push starts in an idle thread, with a value that no thread has pushed or is pushing.
use verified_concurrent.Base.{
  ℕ, ◌≡◌, refl, Bool, true, false, ◌&&◌, not, Option, none, some, List, [], ◌∷◌, arith,
  if◌then◌else◌, all, all-append, contains, is_some, Option-cases, inl, inr,
}
use verified_concurrent.Base.Sets.{contains-to_set}
use verified_concurrent.Base.Maps.{Map, lookup, keys, contains-keys}
use verified_concurrent.TreiberModel.State.{
  ThreadState, idle, push_allocated, push_read_head, pop_read_head, StackState,
}
use verified_concurrent.TreiberModel.Actions.{
  StackAction, push_alloc, pop_read, pushing, in_flight_of, in_flight, push_actions, thread_actions,
  actions_from, actions,
}

abbrev is_idle : Option ThreadState → Bool
is_idle (some idle) = true
is_idle _ = false

abbrev pub guard : StackState → StackAction → Bool
guard s (push_alloc t v) =
    is_idle (lookup t s.threads) && (not (contains v s.pushed) && not (contains v (in_flight s)))
guard s _ = true

push_actions-guard :
    (s : StackState) (t : ℕ) (vs : List ℕ)
    → lookup t s.threads ≡ some idle
    → all (guard s) (push_actions s t vs) ≡ true
unfolding push_actions all
push_actions-guard s t [] e = refl
push_actions-guard s t (v ∷ vs) e = ground (arith, push_actions-guard s t vs e)

thread_actions-guard :
    (vs : List ℕ) (s : StackState) (t : ℕ) (st : ThreadState)
    → lookup t s.threads ≡ some st
    → all (guard s) (thread_actions vs s t st) ≡ true
unfolding thread_actions all
thread_actions-guard vs s t idle e = ground (
  arith,
  all-append (guard s) (push_actions s t vs) (if is_some s.head then pop_read t ∷ [] else []),
  push_actions-guard s t vs e,
)
thread_actions-guard vs s t (push_allocated i v) e = refl
thread_actions-guard vs s t (push_read_head i v o) e = refl
thread_actions-guard vs s t (pop_read_head i v o) e = refl

actions_from-guard :
    (vs : List ℕ) (s : StackState) (ts : List ℕ) → all (guard s) (actions_from vs s ts) ≡ true
unfolding actions_from all
actions_from-guard vs s [] = refl
actions_from-guard vs s (t ∷ ts) = elim (Option-cases (lookup t s.threads)) [
  | inl e ↦ rw (e, actions_from) (actions_from-guard vs s ts)
  | inr (c, e) ↦
      rw (e, actions_from)
        (ground (
          arith,
          all-append (guard s) (thread_actions vs s t c) (actions_from vs s ts),
          thread_actions-guard vs s t c e,
          actions_from-guard vs s ts,
        ))
]

pub actions-guard : (vs : List ℕ) (s : StackState) → all (guard s) (actions vs s) ≡ true
unfolding actions
actions-guard vs s = actions_from-guard vs s (keys s.threads)

-- The value of a thread in flight is one of `in_flight`.
in_flight_of-pushing :
    (m : Map ThreadState) (ts : List ℕ) (t i v : ℕ)
    → contains t ts ≡ true
    → pushing (lookup t m) ≡ some (i, v)
    → contains v (in_flight_of m ts) ≡ true
unfolding in_flight_of contains
in_flight_of-pushing m [] t i v c p = absurd (ground arith)
in_flight_of-pushing m (u ∷ us) t i v c p = ground (arith, in_flight_of-pushing m us t i v)

pushing-is_some : (o : Option ThreadState) (i v : ℕ) → pushing o ≡ some (i, v) → is_some o ≡ true
pushing-is_some none i v p = absurd (ground arith)
pushing-is_some (some st) i v p = refl

pub in_flight-pushing :
    (s : StackState) (t i v : ℕ)
    → pushing (lookup t s.threads) ≡ some (i, v)
    → contains v (in_flight s) ≡ true
unfolding in_flight
in_flight-pushing s t i v p = ground (
  arith,
  contains-to_set (in_flight_of s.threads (keys s.threads)) v,
  in_flight_of-pushing s.threads (keys s.threads) t i v,
  contains-keys t s.threads,
  pushing-is_some (lookup t s.threads) i v p,
)

pub is_idle-eq : (o : Option ThreadState) → is_idle o ≡ true → o ≡ some idle
is_idle-eq none e = absurd (ground arith)
is_idle-eq (some idle) e = refl
is_idle-eq (some (push_allocated i v)) e = absurd (ground arith)
is_idle-eq (some (push_read_head i v o)) e = absurd (ground arith)
is_idle-eq (some (pop_read_head i v o)) e = absurd (ground arith)
