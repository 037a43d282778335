-- ===== src/TreiberModel/State.antt =====
-- crates/vf-stateright/src/treiber_stack.rs: the state of the model and its two invariants. Node and
-- thread identifiers and values (u64) are numbers.
use verified_concurrent.Base.{
  ℕ, ◌+◌, Bool, ◌&&◌, ◌||◌, Option, none, some, List, [], ◌∷◌, length, all, contains, ◌==◌,
}
use verified_concurrent.Base.Sets.{to_set}
use verified_concurrent.Base.Maps.{Map, lookup, fill}

-- `struct Node`
pub record Node : Type 0 where
  pub value : ℕ
  pub next : Option ℕ

-- `enum ThreadState`: the node, the value and what was read.
pub data ThreadState : Type 0 where
  idle : ThreadState
  push_allocated : ℕ → ℕ → ThreadState
  push_read_head : ℕ → ℕ → Option ℕ → ThreadState
  pop_read_head : ℕ → ℕ → Option ℕ → ThreadState

-- `struct StackState`
pub record StackState : Type 0 where
  pub head : Option ℕ
  pub nodes : Map Node
  pub node_id_next : ℕ
  pub pushed : List ℕ
  pub popped : List ℕ
  pub threads : Map ThreadState

-- `0..n`, in descending order; the map that it fills is ordered by the keys.
unfoldable pub below : ℕ → List ℕ
below ℕ.zero = []
below (ℕ.suc n) = n ∷ below n

-- `StackState::new`
unfoldable pub init : ℕ → StackState
unfolding fill below
init threads_count = record {
  head = none;
  nodes = [];
  node_id_next = 0;
  pushed = [];
  popped = [];
  threads = fill idle (below threads_count);
}

-- The loop of `contents` on fuel, which follows the chain from `current`; `none` where the fuel runs
-- out. A pointer to no node ends the loop.
unfoldable pub chase : ℕ → Map Node → Option ℕ → Option (List ℕ)
unfolding lookup
chase ℕ.zero nodes current = none
chase (ℕ.suc fuel) nodes none = some []
chase (ℕ.suc fuel) nodes (some id) = elim (lookup id nodes) [
  | none ↦ some []
  | some node ↦ elim (chase fuel nodes node.next) [
    | none ↦ none
    | some rest ↦ some (node.value ∷ rest)
  ]
]

-- `StackState::contents`. A reachable chain is no longer than the set of pushed values.
unfoldable pub contents : StackState → Option (List ℕ)
unfolding chase
contents s = chase (length s.pushed + 1) s.nodes s.head

-- `StackState::no_lost_elements` on the contents.
unfoldable pub no_lost_elements : StackState → List ℕ → Bool
unfolding all contains
no_lost_elements s xs = all (λ e. contains e xs || contains e s.popped) s.pushed

-- `StackState::no_duplicates` on the contents.
unfoldable pub no_duplicates : List ℕ → Bool
unfolding to_set
no_duplicates xs = length xs == length (to_set xs)

-- `StackState::invariants_hold`; where the loop of `contents` does not end there is no answer.
unfoldable pub invariants_hold : StackState → Option Bool
unfolding contents no_lost_elements no_duplicates
invariants_hold s = elim (contents s) [
  | none ↦ none
  | some xs ↦ some (no_lost_elements s xs && no_duplicates xs)
]
