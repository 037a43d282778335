-- ===== src/TreiberModel/Safety.antt =====
-- The states that `StackModel` (crates/vf-stateright/src/treiber_stack.rs) reaches, its invariants in
-- all of them, and the sequential stack that it implements.
use verified_concurrent.Base.{
  ℕ, ◌+◌, ◌≡◌, true, ◌||◌, some, List, [], arith, all-true, all-get_elem?, get_elem?, contains,
  length,
}
use verified_concurrent.TreiberModel.State.{
  StackState, init, contents, no_lost_elements, invariants_hold,
}
use verified_concurrent.TreiberModel.Actions.{StackAction, actions, next_state}
use verified_concurrent.TreiberModel.Chain.{Cells, values, chase-Chain, distinct-no_duplicates}
use verified_concurrent.TreiberModel.Invariant.{Inv, Inv-init}
use verified_concurrent.TreiberModel.Guards.{guard, actions-guard}
use verified_concurrent.TreiberModel.Moves.{on_stack, effect, next_state-Moves}

-- The states that the checker explores: from the initial state, by the action at some position of
-- `actions`.
pub data Reach (threads_count : ℕ) (vs : List ℕ) : StackState → Type 0 where
  start : Reach threads_count vs (init threads_count)
  later :
      {s t : StackState} (n : ℕ) {a : StackAction}
      → Reach threads_count vs s
      → get_elem? (actions vs s) n ≡ some a
      → next_state s a ≡ some t
      → Reach threads_count vs t

Reach-Inv : {n : ℕ} {vs : List ℕ} {s : StackState} → Reach n vs s → (cs : Cells) × Inv s cs
Reach-Inv {n} start = ([], Inv-init n)
Reach-Inv {n} {vs} (later {s} {t} i {a} r m e) =
    let (cs, h) = Reach-Inv r in
    let (cs', h', f) =
      next_state-Moves s t cs a h
        (all-get_elem? (guard s) (actions vs s) i a (actions-guard vs s) m) e in
    (cs', h')

contents-Inv : (s : StackState) (cs : Cells) → Inv s cs → contents s ≡ some (values cs)
unfolding contents
contents-Inv s cs h =
    chase-Chain (length s.pushed + 1) s.nodes s.head cs (let b = h.small in omega arith) h.chain

no_lost_elements-Inv :
    (s : StackState) (cs : Cells) → Inv s cs → no_lost_elements s (values cs) ≡ true
unfolding no_lost_elements
no_lost_elements-Inv s cs h =
    all-true (λ e. contains e (values cs) || contains e s.popped) s.pushed
      (λ a m. let f = h.same a in ground arith)

-- In every state that the checker explores, for any number of threads and any values, the loop of
-- `contents` ends within its fuel, and neither NoLostElements nor NoDuplicates is violated.
pub Reach-invariants_hold :
    (n : ℕ) (vs : List ℕ) (s : StackState) → Reach n vs s → invariants_hold s ≡ some true
unfolding invariants_hold
Reach-invariants_hold n vs s r =
    let (cs, h) = Reach-Inv r in
    ground (
      arith,
      contents-Inv s cs h,
      no_lost_elements-Inv s cs h,
      distinct-no_duplicates (values cs) h.unique,
    )

-- Every action that the checker carries out in a state which it reaches does to the contents of the
-- stack what a sequential stack does: a compare-and-swap of a push that succeeds puts its value on
-- top, one of a pop that succeeds takes off the top, which is the value that it has read, and all
-- else changes nothing.
pub next_state-on_stack :
    (n : ℕ) (vs : List ℕ) (s t : StackState) (i : ℕ) (a : StackAction)
    → Reach n vs s
    → get_elem? (actions vs s) i ≡ some a
    → next_state s a ≡ some t
    → (xs : List ℕ) × (ys : List ℕ) × (contents s ≡ some xs)
      × (contents t ≡ some ys)
      × (on_stack (effect s a) xs ≡ some ys)
next_state-on_stack n vs s t i a r m e =
    let (cs, h) = Reach-Inv r in
    let (cs', h', f) =
      next_state-Moves s t cs a h
        (all-get_elem? (guard s) (actions vs s) i a (actions-guard vs s) m) e in
    (values cs, values cs', contents-Inv s cs h, contents-Inv t cs' h', f)
