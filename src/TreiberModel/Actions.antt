-- ===== src/TreiberModel/Actions.antt =====
-- crates/vf-stateright/src/treiber_stack.rs: the actions of the threads, which of them the model
-- offers in a state, and what each does.
use verified_concurrent.Base.{
  ℕ, ◌+◌, ◌&&◌, not, Option, none, some, List, [], ◌∷◌, ◌++◌, contains, is_some, same_option,
  if◌then◌else◌,
}
use verified_concurrent.Base.Sets.{set_insert, to_set}
use verified_concurrent.Base.Maps.{Map, lookup, insert, keys}
use verified_concurrent.TreiberModel.State.{
  Node, ThreadState, idle, push_allocated, push_read_head, pop_read_head, StackState,
}

-- `enum StackAction`
pub data StackAction : Type 0 where
  push_alloc : ℕ → ℕ → StackAction
  push_read : ℕ → StackAction
  push_cas : ℕ → StackAction
  pop_read : ℕ → StackAction
  pop_cas : ℕ → StackAction

-- The node and the value that a thread is about to push.
abbrev pub pushing : Option ThreadState → Option (ℕ × ℕ)
pushing (some (push_allocated i v)) = some (i, v)
pushing (some (push_read_head i v o)) = some (i, v)
pushing _ = none

-- The values that some thread is about to push: the `filter_map` over the threads.
unfoldable pub in_flight_of : Map ThreadState → List ℕ → List ℕ
unfolding lookup
in_flight_of m [] = []
in_flight_of m (t ∷ ts) = elim (pushing (lookup t m)) [
  | none ↦ in_flight_of m ts
  | some (i, v) ↦ v ∷ in_flight_of m ts
]

unfoldable pub in_flight : StackState → List ℕ
unfolding in_flight_of keys to_set
in_flight s = to_set (in_flight_of s.threads (keys s.threads))

-- The pushes offered to an idle thread: of values not yet pushed and not in flight.
unfoldable pub push_actions : StackState → ℕ → List ℕ → List StackAction
unfolding in_flight contains
push_actions s t [] = []
push_actions s t (v ∷ vs) =
    (if not (contains v s.pushed) && not (contains v (in_flight s))
      then push_alloc t v ∷ []
      else [])
    ++ push_actions s t vs

-- The arm of the loop for a thread in the given state.
unfoldable pub thread_actions : List ℕ → StackState → ℕ → ThreadState → List StackAction
unfolding push_actions
thread_actions values s t idle =
    push_actions s t values ++ (if is_some s.head then pop_read t ∷ [] else [])
thread_actions values s t (push_allocated i v) = push_read t ∷ []
thread_actions values s t (push_read_head i v o) = push_cas t ∷ []
thread_actions values s t (pop_read_head i v o) = pop_cas t ∷ []

unfoldable pub actions_from : List ℕ → StackState → List ℕ → List StackAction
unfolding thread_actions lookup
actions_from values s [] = []
actions_from values s (t ∷ ts) =
    elim (lookup t s.threads) [ none ↦ [] | some st ↦ thread_actions values s t st ]
    ++ actions_from values s ts

-- `StackModel::actions`
unfoldable pub actions : List ℕ → StackState → List StackAction
unfolding actions_from keys
actions values s = actions_from values s (keys s.threads)

unfoldable pub alloc_node : StackState → ℕ → ℕ → StackState
unfolding insert
alloc_node s t v = record s {
  nodes = insert s.node_id_next (record { value = v; next = none }) s.nodes;
  node_id_next = s.node_id_next + 1;
  threads = insert t (push_allocated s.node_id_next v) s.threads;
}

-- `if let Some(node) = next.nodes.get_mut(&node_id) { node.next = next.head; }`
unfoldable pub link_node : ℕ → Option ℕ → Map Node → Map Node
unfolding lookup insert
link_node i h m = elim (lookup i m) [ none ↦ m | some n ↦ insert i (record n { next = h }) m ]

unfoldable pub read_for_push : StackState → ℕ → StackState
unfolding link_node lookup insert
read_for_push s t = elim (lookup t s.threads) [
  | some (push_allocated i v) ↦ record s {
    nodes = link_node i s.head s.nodes;
    threads = insert t (push_read_head i v s.head) s.threads;
  }
  | _ ↦ s
]

unfoldable pub cas_push : StackState → ℕ → StackState
unfolding lookup insert set_insert
cas_push s t = elim (lookup t s.threads) [
  | some (push_read_head i v o) ↦
      if same_option s.head o
      then record s {
        head = some i;
        pushed = set_insert v s.pushed;
        threads = insert t idle s.threads;
      }
      else record s { threads = insert t (push_allocated i v) s.threads }
  | _ ↦ s
]

unfoldable pub read_for_pop : StackState → ℕ → StackState
unfolding lookup insert
read_for_pop s t = elim s.head [
  | none ↦ s
  | some h ↦ elim (lookup h s.nodes) [
    | none ↦ s
    | some n ↦ record s { threads = insert t (pop_read_head h n.value n.next) s.threads }
  ]
]

unfoldable pub cas_pop : StackState → ℕ → StackState
unfolding lookup insert set_insert
cas_pop s t = elim (lookup t s.threads) [
  | some (pop_read_head i v o) ↦
      if same_option s.head (some i)
      then record s { head = o; popped = set_insert v s.popped; threads = insert t idle s.threads }
      else record s { threads = insert t idle s.threads }
  | _ ↦ s
]

-- `StackModel::next_state`
unfoldable pub next_state : StackState → StackAction → Option StackState
unfolding alloc_node read_for_push cas_push read_for_pop cas_pop
next_state s (push_alloc t v) = some (alloc_node s t v)
next_state s (push_read t) = some (read_for_push s t)
next_state s (push_cas t) = some (cas_push s t)
next_state s (pop_read t) = some (read_for_pop s t)
next_state s (pop_cas t) = some (cas_pop s t)
