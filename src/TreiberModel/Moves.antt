-- ===== src/TreiberModel/Moves.antt =====
-- What each action of `StackModel` (crates/vf-stateright/src/treiber_stack.rs) does to the list, as
-- an operation of a sequential stack.
use verified_concurrent.Base.{
  ℕ, ◌≡◌, refl, true, Option, none, some, List, [], ◌∷◌, arith, ◌==◌, if◌then◌else◌, Option-cases,
  Bool-cases, inl, inr, same_option, subst, same_option→eq,
}
use mathlib.Core.Option.{some-injective}
use verified_concurrent.Base.Maps.{lookup, insert}
use verified_concurrent.Base.Sets.{set_insert}
use verified_concurrent.TreiberModel.State.{
  ThreadState, idle, push_allocated, push_read_head, pop_read_head, StackState,
}
use verified_concurrent.TreiberModel.Actions.{
  StackAction, push_alloc, push_read, push_cas, pop_read, pop_cas, alloc_node, link_node,
  read_for_push, cas_push, read_for_pop, cas_pop, next_state,
}
use verified_concurrent.TreiberModel.Chain.{Cells, values}
use verified_concurrent.TreiberModel.Invariant.{Inv}
use verified_concurrent.TreiberModel.Guards.{guard, in_flight-pushing, is_idle-eq}
use verified_concurrent.TreiberModel.Pushes.{alloc-Inv, read-Inv, swung-Inv, retried-Inv}
use verified_concurrent.TreiberModel.Pops.{noted-Inv, taken-Inv, missed-Inv}

-- What an operation does to the sequential stack, at the step where it takes effect.
pub data Effect : Type 0 where
  nothing : Effect
  pushes : ℕ → Effect
  pops : ℕ → Effect

abbrev pub on_stack : Effect → List ℕ → Option (List ℕ)
on_stack nothing xs = some xs
on_stack (pushes v) xs = some (v ∷ xs)
on_stack (pops v) [] = none
on_stack (pops v) (x ∷ xs) = if v == x then some xs else none

-- The step of a push that takes effect is a compare-and-swap that finds the head which the thread
-- has read, and the same for a pop.
abbrev pub push_effect : StackState → Option ThreadState → Effect
push_effect s (some (push_read_head i v o)) = if same_option s.head o then pushes v else nothing
push_effect s _ = nothing

abbrev pub pop_effect : StackState → Option ThreadState → Effect
pop_effect s (some (pop_read_head i v o)) = if same_option s.head (some i) then pops v else nothing
pop_effect s _ = nothing

abbrev pub effect : StackState → StackAction → Effect
effect s (push_cas t) = push_effect s (lookup t s.threads)
effect s (pop_cas t) = pop_effect s (lookup t s.threads)
effect s _ = nothing

abbrev pub Moves : Effect → Cells → StackState → Type 0
Moves e cs s = (cs' : Cells) × Inv s cs' × (on_stack e (values cs) ≡ some (values cs'))

alloc-Moves :
    (s : StackState) (cs : Cells) (t v : ℕ)
    → Inv s cs
    → guard s (push_alloc t v) ≡ true
    → Moves nothing cs (alloc_node s t v)
alloc-Moves s cs t v h g = (
  cs,
  alloc-Inv h t v (is_idle-eq (lookup t s.threads) (ground arith)) (ground arith)
      (λ u j w p. ground (arith, in_flight-pushing s u j w p)),
  refl,
)

-- The steps by the state of the thread.
read_for_push-Moves :
    (s : StackState) (cs : Cells) (t : ℕ) (o : Option ThreadState)
    → lookup t s.threads ≡ o
    → Inv s cs
    → Moves nothing cs (read_for_push s t)
unfolding read_for_push link_node
read_for_push-Moves s cs t (some (push_allocated i v)) e h =
    let l = h.own t in
    elim (Option-cases (lookup i s.nodes)) [
      | inl f ↦ absurd (ground arith)
      | inr (n, f) ↦
          rw (e, f, read_for_push, link_node)
            (
              cs,
              subst
                  (λ w.
                    Inv
                      (record s {
                        nodes = insert i (record { value = w; next = s.head }) s.nodes;
                        threads = insert t (push_read_head i v s.head) s.threads;
                      })
                      cs)
                  (ground arith) (read-Inv h t i v e),
              refl,
            )
    ]
read_for_push-Moves s cs t none e h = rw (e, read_for_push) (cs, h, refl)
read_for_push-Moves s cs t (some idle) e h = rw (e, read_for_push) (cs, h, refl)
read_for_push-Moves s cs t (some (push_read_head i v o)) e h = rw (e, read_for_push) (cs, h, refl)
read_for_push-Moves s cs t (some (pop_read_head i v o)) e h = rw (e, read_for_push) (cs, h, refl)

cas_push-Moves :
    (s : StackState) (cs : Cells) (t : ℕ) (o : Option ThreadState)
    → lookup t s.threads ≡ o
    → Inv s cs
    → Moves (push_effect s o) cs (cas_push s t)
unfolding cas_push
cas_push-Moves s cs t (some (push_read_head i v o)) e h = elim (Bool-cases (same_option s.head o)) [
  | inl f ↦
      rw (e, f, cas_push)
        ((i, v) ∷ cs, swung-Inv h t i v (ground (arith, same_option→eq s.head o f)), refl)
  | inr f ↦ rw (e, f, cas_push) (cs, retried-Inv h t i v o e, refl)
]
cas_push-Moves s cs t none e h = rw (e, cas_push) (cs, h, refl)
cas_push-Moves s cs t (some idle) e h = rw (e, cas_push) (cs, h, refl)
cas_push-Moves s cs t (some (push_allocated i v)) e h = rw (e, cas_push) (cs, h, refl)
cas_push-Moves s cs t (some (pop_read_head i v o)) e h = rw (e, cas_push) (cs, h, refl)

read_for_pop-Moves :
    (s : StackState) (cs : Cells) (t : ℕ) → Inv s cs → Moves nothing cs (read_for_pop s t)
unfolding read_for_pop
read_for_pop-Moves s cs t h = elim (Option-cases s.head) [
  | inl e ↦ rw (e, read_for_pop) (cs, h, refl)
  | inr (i, e) ↦ elim (Option-cases (lookup i s.nodes)) [
    | inl f ↦ rw (e, f, read_for_pop) (cs, h, refl)
    | inr (n, f) ↦ rw (e, f, read_for_pop) (cs, noted-Inv h t i n e f, refl)
  ]
]

-- A successful pop takes the first cell, whose value is the one that the thread has read.
taken-Moves :
    (s : StackState) (cs : Cells) (t i v : ℕ) (o : Option ℕ)
    → lookup t s.threads ≡ some (pop_read_head i v o)
    → s.head ≡ some i
    → Inv s cs
    → Moves
        (pops v)
        cs
        (record s { head = o; popped = set_insert v s.popped; threads = insert t idle s.threads })
taken-Moves s [] t i v o e f h = let c = h.chain in absurd (ground arith)
taken-Moves s ((j, w) ∷ cs) t i v o e f h =
    let (a, next, b, c) = h.chain in
    let l = h.own t in
    let mine : lookup t s.threads ≡ some (pop_read_head j w o) = ground arith in
    let value : w ≡ v = ground arith in
    (
      cs,
      subst
          (λ x.
            Inv
              (record s {
                head = o;
                popped = set_insert x s.popped;
                threads = insert t idle s.threads;
              })
              cs)
          value (taken-Inv h t o mine),
      ground arith,
    )

cas_pop-Moves :
    (s : StackState) (cs : Cells) (t : ℕ) (o : Option ThreadState)
    → lookup t s.threads ≡ o
    → Inv s cs
    → Moves (pop_effect s o) cs (cas_pop s t)
unfolding cas_pop
cas_pop-Moves s cs t (some (pop_read_head i v o)) e h =
    elim (Bool-cases (same_option s.head (some i))) [
      | inl f ↦ rw (e, f, cas_pop) (taken-Moves s cs t i v o e (same_option→eq s.head (some i) f) h)
      | inr f ↦ rw (e, f, cas_pop) (cs, missed-Inv h t, refl)
    ]
cas_pop-Moves s cs t none e h = rw (e, cas_pop) (cs, h, refl)
cas_pop-Moves s cs t (some idle) e h = rw (e, cas_pop) (cs, h, refl)
cas_pop-Moves s cs t (some (push_allocated i v)) e h = rw (e, cas_pop) (cs, h, refl)
cas_pop-Moves s cs t (some (push_read_head i v o)) e h = rw (e, cas_pop) (cs, h, refl)

pub next_state-Moves :
    (s t : StackState) (cs : Cells) (a : StackAction)
    → Inv s cs
    → guard s a ≡ true
    → next_state s a ≡ some t
    → Moves (effect s a) cs t
unfolding next_state
next_state-Moves s t cs (push_alloc i v) h g e =
    subst (Moves nothing cs) (some-injective (alloc_node s i v) t e) (alloc-Moves s cs i v h g)
next_state-Moves s t cs (push_read i) h g e =
    subst (Moves nothing cs) (some-injective (read_for_push s i) t e)
      (read_for_push-Moves s cs i (lookup i s.threads) refl h)
next_state-Moves s t cs (push_cas i) h g e =
    subst (Moves (effect s (push_cas i)) cs) (some-injective (cas_push s i) t e)
      (cas_push-Moves s cs i (lookup i s.threads) refl h)
next_state-Moves s t cs (pop_read i) h g e =
    subst (Moves nothing cs) (some-injective (read_for_pop s i) t e) (read_for_pop-Moves s cs i h)
next_state-Moves s t cs (pop_cas i) h g e =
    subst (Moves (effect s (pop_cas i)) cs) (some-injective (cas_pop s i) t e)
      (cas_pop-Moves s cs i (lookup i s.threads) refl h)
