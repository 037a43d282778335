-- ===== src/Checkers/Lifo.antt =====
-- crates/vf-core/src/invariants/stack.rs: what the checks of the LIFO order and of linearizability
-- decide about a recorded history.
use verified_concurrent.Base.{
  ℕ, ◌≡◌, refl, sym, ◌∙◌, ap, true, Option, none, some, List, [], ◌∷◌, ◌++◌, map, arith, ◌==◌,
  if◌then◌else◌, is_empty, ◌↔◌, subst, Bool-cases, inl, inr,
}
use verified_concurrent.Checkers.Property.{pass}
use verified_concurrent.Checkers.Stack.{
  StackOperation, StackHistory, StackPropertyChecker, push, pop, pop_empty, new_history,
  record_push, record_pop, replay, replay_pops, check_lifo_order, check_linearizability,
}

-- The calls that record a history.
pub data Entry : Type 0 where
  pushed : ℕ → ℕ → ℕ → Entry
  popped : ℕ → Option ℕ → ℕ → Entry

unfoldable pub record_all : StackHistory → List Entry → StackHistory
record_all h [] = h
record_all h (pushed t e n ∷ es) = record_all (record_push h t e n) es
record_all h (popped t e n ∷ es) = record_all (record_pop h t e n) es

-- The executions of a sequential stack: from a stack, by the recorded calls, to a stack.
pub data Runs : List ℕ → List Entry → List ℕ → Type 0 where
  done : {s : List ℕ} → Runs s [] s
  then_push :
      {s f : List ℕ} {es : List Entry} (t e n : ℕ)
      → Runs (e ∷ s) es f
      → Runs s (pushed t e n ∷ es) f
  then_pop :
      {s f : List ℕ} {es : List Entry} (t e n : ℕ)
      → Runs s es f
      → Runs (e ∷ s) (popped t (some e) n ∷ es) f
  then_none :
      {f : List ℕ} {es : List Entry} (t n : ℕ) → Runs [] es f → Runs [] (popped t none n ∷ es) f

abbrev operation : Entry → StackOperation
operation (pushed t e n) = record { thread_id = t; op_type = push; element = some e; step = n }
operation (popped t (some e) n) = record {
  thread_id = t;
  op_type = pop;
  element = some e;
  step = n;
}
operation (popped t none n) = record {
  thread_id = t;
  op_type = pop_empty;
  element = none;
  step = n;
}

append_assoc : (xs ys zs : List StackOperation) → (xs ++ ys) ++ zs ≡ xs ++ (ys ++ zs)
append_assoc [] ys zs = refl
append_assoc (x ∷ xs) ys zs = ap (λ w. x ∷ w) (append_assoc xs ys zs)

append-nil : (xs : List StackOperation) → xs ++ [] ≡ xs
append-nil [] = refl
append-nil (x ∷ xs) = ap (λ w. x ∷ w) (append-nil xs)

operations-record_all :
    (h : StackHistory) (es : List Entry)
    → (record_all h es).operations ≡ h.operations ++ map operation es
unfolding record_all
operations-record_all h [] = sym (append-nil h.operations)
operations-record_all h (pushed t e n ∷ es) =
    operations-record_all (record_push h t e n) es
    ∙ append_assoc h.operations (operation (pushed t e n) ∷ []) (map operation es)
operations-record_all h (popped t (some e) n ∷ es) =
    operations-record_all (record_pop h t (some e) n) es
    ∙ append_assoc h.operations (operation (popped t (some e) n) ∷ []) (map operation es)
operations-record_all h (popped t none n ∷ es) =
    operations-record_all (record_pop h t none n) es
    ∙ append_assoc h.operations (operation (popped t none n) ∷ []) (map operation es)

replay-Runs :
    (s : List ℕ) (es : List Entry)
    → (replay s (map operation es)).holds ≡ true
    → (f : List ℕ) × Runs s es f
unfolding replay
replay-Runs s [] h = (s, done)
replay-Runs s (pushed t e n ∷ es) h =
    let (f, r) = replay-Runs (e ∷ s) es h in (f, then_push t e n r)
replay-Runs [] (popped t (some e) n ∷ es) h = absurd (ground arith)
replay-Runs (a ∷ s) (popped t (some e) n ∷ es) h = elim (Bool-cases (a == e)) [
  | inl q ↦
      let (f, r) = replay-Runs s es (ground arith) in
      let same : e ≡ a = ground arith in
      (f, subst (λ x. Runs (x ∷ s) (popped t (some e) n ∷ es) f) same (then_pop t e n r))
  | inr q ↦ absurd (ground arith)
]
replay-Runs [] (popped t none n ∷ es) h = let (f, r) = replay-Runs [] es h in (f, then_none t n r)
replay-Runs (a ∷ s) (popped t none n ∷ es) h = absurd (ground arith)

Runs-replay :
    {s f : List ℕ} {es : List Entry} → Runs s es f → (replay s (map operation es)).holds ≡ true
unfolding replay
Runs-replay done = refl
Runs-replay (then_push t e n r) = Runs-replay r
Runs-replay (then_pop {s} {f} {es} t e n r) = let h = Runs-replay r in ground arith
Runs-replay (then_none t n r) = Runs-replay r

-- The histories of a stack whose pops of an element take the top or, where it has none, take
-- nothing, and whose pops without an element may find any stack.
pub data PopRuns : List ℕ → List Entry → List ℕ → Type 0 where
  pop_done : {s : List ℕ} → PopRuns s [] s
  pop_push :
      {s f : List ℕ} {es : List Entry} (t e n : ℕ)
      → PopRuns (e ∷ s) es f
      → PopRuns s (pushed t e n ∷ es) f
  pop_top :
      {s f : List ℕ} {es : List Entry} (t e n : ℕ)
      → PopRuns s es f
      → PopRuns (e ∷ s) (popped t (some e) n ∷ es) f
  pop_nothing :
      {f : List ℕ} {es : List Entry} (t e n : ℕ)
      → PopRuns [] es f
      → PopRuns [] (popped t (some e) n ∷ es) f
  pop_none :
      {s f : List ℕ} {es : List Entry} (t n : ℕ)
      → PopRuns s es f
      → PopRuns s (popped t none n ∷ es) f

replay_pops-PopRuns :
    (s : List ℕ) (es : List Entry)
    → (replay_pops s (map operation es)).holds ≡ true
    → (f : List ℕ) × PopRuns s es f
unfolding replay_pops
replay_pops-PopRuns s [] h = (s, pop_done)
replay_pops-PopRuns s (pushed t e n ∷ es) h =
    let (f, r) = replay_pops-PopRuns (e ∷ s) es h in (f, pop_push t e n r)
replay_pops-PopRuns [] (popped t (some e) n ∷ es) h =
    let (f, r) = replay_pops-PopRuns [] es h in (f, pop_nothing t e n r)
replay_pops-PopRuns (a ∷ s) (popped t (some e) n ∷ es) h = elim (Bool-cases (a == e)) [
  | inl q ↦
      let (f, r) = replay_pops-PopRuns s es (ground arith) in
      let same : e ≡ a = ground arith in
      (f, subst (λ x. PopRuns (x ∷ s) (popped t (some e) n ∷ es) f) same (pop_top t e n r))
  | inr q ↦ absurd (ground arith)
]
replay_pops-PopRuns s (popped t none n ∷ es) h =
    let (f, r) = replay_pops-PopRuns s es h in (f, pop_none t n r)

PopRuns-replay_pops :
    {s f : List ℕ} {es : List Entry}
    → PopRuns s es f
    → (replay_pops s (map operation es)).holds ≡ true
unfolding replay_pops
PopRuns-replay_pops pop_done = refl
PopRuns-replay_pops (pop_push t e n r) = PopRuns-replay_pops r
PopRuns-replay_pops (pop_top t e n r) = let h = PopRuns-replay_pops r in ground arith
PopRuns-replay_pops (pop_nothing t e n r) = PopRuns-replay_pops r
PopRuns-replay_pops (pop_none t n r) = PopRuns-replay_pops r

-- On an empty history the shortcut of `check_lifo_order` agrees with its loop.
check_lifo_order-replay :
    (c : StackPropertyChecker)
    → (check_lifo_order c).holds ≡ (replay [] c.stack.history.operations).holds
unfolding check_lifo_order replay
check_lifo_order-replay c = shortcut c.stack.history.operations
  where
    shortcut :
        (ops : List StackOperation)
        → (if is_empty ops then pass 72 else replay [] ops).holds ≡ (replay [] ops).holds
    shortcut [] = refl
    shortcut (op ∷ ops) = refl

module _ (c : StackPropertyChecker) (es : List Entry)
    (recorded : c.stack.history ≡ record_all new_history es) where
  recorded_operations : c.stack.history.operations ≡ map operation es
  recorded_operations = ap (λ h. h.operations) recorded ∙ operations-record_all new_history es

  -- For a history that was recorded by any calls of `record_push` and `record_pop`, LIFO_Order holds
  -- exactly where the calls, in their order, are an execution of a sequential stack that starts
  -- empty.
  pub check_lifo_order-Runs : ((check_lifo_order c).holds ≡ true) ↔ ((f : List ℕ) × Runs [] es f)
  check_lifo_order-Runs = (
    λ h. replay-Runs [] es (
        subst (λ ops. (replay [] ops).holds ≡ true) recorded_operations
          (sym (check_lifo_order-replay c) ∙ h)),
    λ (f, r).
        check_lifo_order-replay c
        ∙ subst (λ ops. (replay [] ops).holds ≡ true) (sym recorded_operations) (Runs-replay r),
  )

  -- For a history that was recorded by any calls of `record_push` and `record_pop`, Linearizability
  -- holds exactly where the calls, in their order, are a run from the empty stack in which each pop of an element, from a stack that has one, takes the top. A
  -- pop of an element that finds no element, and a pop without one that does, pass: no execution of a
  -- stack has them.
  pub check_linearizability-PopRuns :
      ((check_linearizability c).holds ≡ true) ↔ ((f : List ℕ) × PopRuns [] es f)
  unfolding check_linearizability
  check_linearizability-PopRuns = (
    λ h.
        replay_pops-PopRuns [] es
          (subst (λ ops. (replay_pops [] ops).holds ≡ true) recorded_operations h),
    λ (f, r).
        subst (λ ops. (replay_pops [] ops).holds ≡ true) (sym recorded_operations)
          (PopRuns-replay_pops r),
  )
