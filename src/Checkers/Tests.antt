-- ===== src/Checkers/Tests.antt =====
-- Reports of a stack to the checker of crates/vf-core/src/invariants/stack.rs, and the theorems for
-- them.
use verified_concurrent.Base.{
  ℕ, ◌≡◌, refl, true, false, none, some, List, [], ◌∷◌, ◌↔◌, distinct, get_elem?,
}
use verified_concurrent.Checkers.Property.{
  PropertySummary, verify_all, summary, Verdict, verify_all-Verdict,
}
use verified_concurrent.Checkers.Stack.{
  StackPropertyChecker, new_history, check_no_duplicates, check_lifo_order, check_linearizability,
  check_all,
}
use verified_concurrent.Checkers.Lifo.{
  Entry, pushed, popped, record_all, Runs, check_lifo_order-Runs, PopRuns,
  check_linearizability-PopRuns,
}
use verified_concurrent.Checkers.RingBuffer.{
  RingBufferPropertyChecker, check_all_messages, check_fifo_order, check_fifo_order_iff,
}
use verified_concurrent.Checkers.Contents.{check_no_duplicates-distinct}

abbrev checker : List Entry → List ℕ → StackPropertyChecker
checker es xs = record {
  stack = record {
    pushed_elements = 5 ∷ 6 ∷ [];
    popped_elements = 6 ∷ [];
    current_contents = xs;
    history = record_all new_history es;
  };
  dst_seed = some 42;
}

abbrev good : List Entry
good = pushed 0 5 1 ∷ pushed 1 6 2 ∷ popped 0 (some 6) 3 ∷ []

all_hold_good : verify_all (check_all (checker good (5 ∷ []))) ≡ none
unfolding verify_all check_all record_all
all_hold_good = refl

-- A pop that returns an element of an empty stack: one check reports it and the other does not.
linearizability_misses_pop :
    ((check_lifo_order (checker (popped 0 (some 5) 1 ∷ []) [])).holds ≡ false)
    × ((check_linearizability (checker (popped 0 (some 5) 1 ∷ []) [])).holds ≡ true)
unfolding check_lifo_order check_linearizability record_all
linearizability_misses_pop = (refl, refl)

check_lifo_order_example :
    ((check_lifo_order (checker good (5 ∷ []))).holds ≡ true) ↔ ((f : List ℕ) × Runs [] good f)
check_lifo_order_example = check_lifo_order-Runs (checker good (5 ∷ [])) good refl

check_linearizability_example :
    ((check_linearizability (checker good (5 ∷ []))).holds ≡ true)
    ↔ ((f : List ℕ) × PopRuns [] good f)
check_linearizability_example = check_linearizability-PopRuns (checker good (5 ∷ [])) good refl

-- A pop of an element that is not the top fails.
linearizability_sees_order :
    (check_linearizability
      (checker (pushed 0 1 1 ∷ pushed 0 2 2 ∷ popped 0 (some 1) 3 ∷ []) [])).holds
    ≡ false
unfolding check_linearizability record_all
linearizability_sees_order = refl

check_no_duplicates_example :
    (check_no_duplicates (checker good (5 ∷ 5 ∷ []))).holds ≡ distinct (5 ∷ 5 ∷ [])
check_no_duplicates_example = check_no_duplicates-distinct (checker good (5 ∷ 5 ∷ []))

verify_all_example :
    Verdict
      (check_all (checker good (5 ∷ 5 ∷ [])))
      (verify_all (check_all (checker good (5 ∷ 5 ∷ []))))
verify_all_example = verify_all-Verdict (check_all (checker good (5 ∷ 5 ∷ [])))

abbrev report : PropertySummary
report = summary (check_all (checker good (5 ∷ 5 ∷ [])))

-- Message 8 was consumed, but never produced.
abbrev phantom : RingBufferPropertyChecker
phantom = record {
  buffer = record {
    produced_messages = 7 ∷ [];
    consumed_messages = 7 ∷ 8 ∷ [];
    current_contents = [];
    capacity = 4;
  };
  dst_seed = none;
}

-- All the checks of the ring buffer pass on it.
phantom_passes : verify_all (check_all_messages phantom) ≡ none
unfolding verify_all check_all_messages
phantom_passes = refl

check_fifo_order_iff_example :
    ((check_fifo_order phantom).holds ≡ true)
    ↔ ((k x y : ℕ) → get_elem? (7 ∷ 8 ∷ []) k ≡ some x → get_elem? (7 ∷ []) k ≡ some y → x ≡ y)
check_fifo_order_iff_example = check_fifo_order_iff phantom
