-- ===== src/Checkers/Stack.antt =====
-- crates/vf-core/src/invariants/stack.rs: the history of a stack and its property checker. The
-- stack under test is known by what it reports: its pushed and popped elements, its contents and its
-- history. A set of elements is a list that `contains` reads.
use verified_concurrent.Base.{
  ℕ, ◌&&◌, not, Option, none, some, List, [], ◌∷◌, ◌++◌, length, contains, is_some, is_empty, ◌==◌,
  if◌then◌else◌,
}
use verified_concurrent.Base.Sets.{to_set}
use verified_concurrent.Checkers.Property.{PropertyResult, pass, fail}

-- `enum StackOpType`
pub data StackOpType : Type 0 where
  push : StackOpType
  pop : StackOpType
  pop_empty : StackOpType

-- `struct StackOperation`
pub record StackOperation : Type 0 where
  pub thread_id : ℕ
  pub op_type : StackOpType
  pub element : Option ℕ
  pub step : ℕ

-- `struct StackHistory`
pub record StackHistory : Type 0 where
  pub operations : List StackOperation

-- `StackHistory::new`
abbrev pub new_history : StackHistory
new_history = record { operations = [] }

-- `StackHistory::record_push`
abbrev pub record_push : StackHistory → ℕ → ℕ → ℕ → StackHistory
record_push h thread_id element step = record {
  operations =
      h.operations
      ++ record { thread_id = thread_id; op_type = push; element = some element; step = step } ∷ [];
}

-- `StackHistory::record_pop`
abbrev pub record_pop : StackHistory → ℕ → Option ℕ → ℕ → StackHistory
record_pop h thread_id element step = record {
  operations =
      h.operations
      ++ record {
        thread_id = thread_id;
        op_type = if is_some element then pop else pop_empty;
        element = element;
        step = step;
      }
        ∷ [];
}

-- What `trait StackProperties` reports.
pub record StackProperties : Type 0 where
  pub pushed_elements : List ℕ
  pub popped_elements : List ℕ
  pub current_contents : List ℕ
  pub history : StackHistory

-- `struct StackPropertyChecker`
pub record StackPropertyChecker : Type 0 where
  pub stack : StackProperties
  pub dst_seed : Option ℕ

-- The loop of `check_no_lost_elements`
unfoldable pub first_lost : List ℕ → List ℕ → List ℕ → Option ℕ
unfolding contains
first_lost contents popped [] = none
first_lost contents popped (e ∷ es) =
    if not (contains e contents) && not (contains e popped)
    then some e
    else first_lost contents popped es

-- `check_no_lost_elements`
unfoldable pub check_no_lost_elements : StackPropertyChecker → PropertyResult
unfolding first_lost
check_no_lost_elements c =
    elim (first_lost c.stack.current_contents c.stack.popped_elements c.stack.pushed_elements) [
      | none ↦ pass 45
      | some e ↦ fail 45 (e ∷ []) (some (record { dst_seed = c.dst_seed }))
    ]

-- The loop of `check_no_duplicates`, with the elements seen so far.
unfoldable pub first_duplicate : List ℕ → List ℕ → Option ℕ
unfolding contains
first_duplicate seen [] = none
first_duplicate seen (e ∷ es) = if contains e seen then some e else first_duplicate (e ∷ seen) es

-- `check_no_duplicates`
unfoldable pub check_no_duplicates : StackPropertyChecker → PropertyResult
unfolding to_set first_duplicate
check_no_duplicates c =
    let contents = c.stack.current_contents in
    if not (length contents == length (to_set contents))
    then elim (first_duplicate [] contents) [ none ↦ pass 58 | some e ↦ fail 58 (e ∷ []) none ]
    else pass 58

-- The loop of `check_lifo_order`, with the model stack, its top first.
unfoldable pub replay : List ℕ → List StackOperation → PropertyResult
replay model [] = pass 72
replay model (op ∷ ops) = elim op.op_type [
  | push ↦ elim op.element [ none ↦ replay model ops | some e ↦ replay (e ∷ model) ops ]
  | pop ↦ elim op.element [
    | none ↦ replay model ops
    | some expected ↦ elim model [
      | [] ↦ fail 72 (expected ∷ op.step ∷ []) none
      | actual ∷ rest ↦
          if not (actual == expected)
          then fail 72 (expected ∷ actual ∷ op.step ∷ []) none
          else replay rest ops
    ]
  ]
  | pop_empty ↦
      if not (is_empty model) then fail 72 (length model ∷ op.step ∷ []) none else replay model ops
]

-- `check_lifo_order`
unfoldable pub check_lifo_order : StackPropertyChecker → PropertyResult
unfolding replay
check_lifo_order c =
    if is_empty c.stack.history.operations then pass 72 else replay [] c.stack.history.operations

-- The loop of `check_linearizability`, with the model stack, its top first.
unfoldable pub replay_pops : List ℕ → List StackOperation → PropertyResult
replay_pops model [] = pass 89
replay_pops model (op ∷ ops) = elim op.op_type [
  | push ↦ elim op.element [ none ↦ replay_pops model ops | some e ↦ replay_pops (e ∷ model) ops ]
  | pop ↦ elim op.element [
    | none ↦ replay_pops model ops
    | some expected ↦ elim model [
      | [] ↦ replay_pops [] ops
      | actual ∷ rest ↦
          if not (actual == expected)
          then fail 89 (expected ∷ actual ∷ []) none
          else replay_pops rest ops
    ]
  ]
  | pop_empty ↦ replay_pops model ops
]

-- `check_linearizability`
unfoldable pub check_linearizability : StackPropertyChecker → PropertyResult
unfolding replay_pops
check_linearizability c = replay_pops [] c.stack.history.operations

-- `check_aba_safety`
abbrev pub check_aba_safety : StackPropertyChecker → PropertyResult
check_aba_safety c = pass 103

-- `check_all`
unfoldable pub check_all : StackPropertyChecker → List PropertyResult
unfolding check_no_lost_elements check_no_duplicates check_lifo_order check_linearizability
check_all c =
    check_no_lost_elements c
    ∷ check_no_duplicates c
    ∷ check_lifo_order c
    ∷ check_linearizability c
    ∷ check_aba_safety c
    ∷ []
