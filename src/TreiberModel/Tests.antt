-- ===== src/TreiberModel/Tests.antt =====
-- Explorations of the Treiber stack model (crates/vf-stateright/src/treiber_stack.rs), and the
-- theorems at the states that they reach.
use verified_concurrent.Base.{
  ℕ, ◌≡◌, refl, Option, none, some, List, [], ◌∷◌, get_elem?, unwrap_or, true, Option-cases, inl,
  inr, arith, subst,
}
use mathlib.Core.Option.{some-injective}
use verified_concurrent.TreiberModel.State.{StackState, init, contents, invariants_hold}
use verified_concurrent.TreiberModel.Actions.{pop_cas, actions, next_state}
use verified_concurrent.TreiberModel.Moves.{on_stack, effect, pops}
use verified_concurrent.TreiberModel.Safety.{
  Reach, start, later, Reach-invariants_hold, next_state-on_stack,
}

-- The state after the actions at the given positions of `actions`, one after the other.
explore : List ℕ → StackState → List ℕ → Option StackState
unfolding actions next_state
explore vs s [] = some s
explore vs s (i ∷ is) = elim (get_elem? (actions vs s) i) [
  | none ↦ none
  | some a ↦ elim (next_state s a) [ none ↦ none | some t ↦ explore vs t is ]
]

Reach-explore :
    (n : ℕ) (vs : List ℕ) (s t : StackState) (is : List ℕ)
    → Reach n vs s
    → explore vs s is ≡ some t
    → Reach n vs t
unfolding explore
Reach-explore n vs s t [] r e = subst (Reach n vs) (some-injective s t e) r
Reach-explore n vs s t (i ∷ is) r e = elim (Option-cases (get_elem? (actions vs s) i)) [
  | inl f ↦ absurd (ground arith)
  | inr (a, f) ↦ elim (Option-cases (next_state s a)) [
    | inl g ↦ absurd (ground arith)
    | inr (u, g) ↦ Reach-explore n vs u t is (later i r f g) (ground arith)
  ]
]

two_threads : List ℕ → StackState
unfolding explore init
two_threads is = unwrap_or (init 2) (explore (5 ∷ 6 ∷ []) (init 2) is)

-- Thread 0 pushes 5 and reads it back for a pop, while thread 1 is about to push 6.
abbrev popping_five : List ℕ
popping_five = 0 ∷ 0 ∷ 0 ∷ 1 ∷ 1 ∷ []

popping_five-Reach : Reach 2 (5 ∷ 6 ∷ []) (two_threads popping_five)
unfolding two_threads explore
popping_five-Reach =
    Reach-explore 2 (5 ∷ 6 ∷ []) (init 2) (two_threads popping_five) popping_five start refl

holds_five : contents (two_threads popping_five) ≡ some (5 ∷ [])
unfolding contents two_threads
holds_five = refl

invariants_hold_example : invariants_hold (two_threads popping_five) ≡ some true
invariants_hold_example =
    Reach-invariants_hold 2 (5 ∷ 6 ∷ []) (two_threads popping_five) popping_five-Reach

-- The pop of thread 0 takes 5 off the stack.
pops_five : effect (two_threads popping_five) (pop_cas 0) ≡ pops 5
unfolding two_threads
pops_five = refl

on_stack_example :
    (xs : List ℕ) × (ys : List ℕ) × (contents (two_threads popping_five) ≡ some xs)
    × (contents (two_threads (0 ∷ 0 ∷ 0 ∷ 1 ∷ 1 ∷ 0 ∷ [])) ≡ some ys)
    × (on_stack (effect (two_threads popping_five) (pop_cas 0)) xs ≡ some ys)
unfolding two_threads actions next_state
on_stack_example =
    next_state-on_stack 2 (5 ∷ 6 ∷ []) (two_threads popping_five)
      (two_threads (0 ∷ 0 ∷ 0 ∷ 1 ∷ 1 ∷ 0 ∷ [])) 0 (pop_cas 0) popping_five-Reach refl refl
