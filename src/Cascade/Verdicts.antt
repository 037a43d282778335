-- ===== src/Cascade/Verdicts.antt =====
-- What the cascade of crates/vf-evaluators/src/cascade.rs reports: which levels it ran and where it
-- stopped.
use verified_concurrent.Base.{
  ◌≡◌, refl, sym, ap, Bool, true, false, not, Option, none, some, List, [], ◌∷◌, ◌++◌, map, arith,
  all, Bool-cases, subst, inl, inr, is_some,
}
use verified_concurrent.Cascade.Run.{
  EvaluatorLevel, rustc, levels_up_to, EvaluatorResult, find_failure, from_results, CascadeConfig,
  Tools, evaluate, run_levels, run, run_levels_from, run_from_level,
}

abbrev pub all_pass : List EvaluatorResult → Bool
all_pass rs = all (λ r. r.passed) rs

-- All the given levels ran and passed; or one failed, those before it ran and passed, and none after
-- it ran.
abbrev pub Outcome :
    Tools → List EvaluatorLevel → List EvaluatorResult → Option EvaluatorResult → Type 0
Outcome tools levels results none =
    (results ≡ map (evaluate tools) levels) × (all_pass results ≡ true)
Outcome tools levels results (some failure) =
    (before : List EvaluatorLevel) × (level : EvaluatorLevel) × (later : List EvaluatorLevel)
    × (levels ≡ before ++ level ∷ later)
    × (failure ≡ evaluate tools level)
    × (failure.passed ≡ false)
    × (all_pass (map (evaluate tools) before) ≡ true)
    × (results ≡ map (evaluate tools) before ++ failure ∷ [])

Outcome-later :
    (tools : Tools) (level : EvaluatorLevel) (levels : List EvaluatorLevel)
    (rs : List EvaluatorResult) (o : Option EvaluatorResult)
    → (evaluate tools level).passed ≡ true
    → Outcome tools levels rs o
    → Outcome tools (level ∷ levels) (evaluate tools level ∷ rs) o
unfolding all
Outcome-later tools level levels rs none e (a, b) =
    (ap (λ x. evaluate tools level ∷ x) a, ground arith)
Outcome-later tools level levels rs (some f) e (before, l, later, a, b, c, d, i) = (
  level ∷ before,
  l,
  later,
  ap (λ x. level ∷ x) a,
  b,
  c,
  ground arith,
  ap (λ x. evaluate tools level ∷ x) i,
)

module _ (tools : Tools) (level : EvaluatorLevel) (levels : List EvaluatorLevel) where
  run_levels-pass :
      (evaluate tools level).passed ≡ true
      → run_levels true tools (level ∷ levels) ≡ evaluate tools level ∷ run_levels true tools levels
  unfolding run_levels
  run_levels-pass e = ground arith

  run_levels-fail :
      (evaluate tools level).passed ≡ false
      → run_levels true tools (level ∷ levels) ≡ evaluate tools level ∷ []
  unfolding run_levels
  run_levels-fail e = ground arith

  find_failure-pass :
      (rs : List EvaluatorResult)
      → (evaluate tools level).passed ≡ true
      → find_failure (evaluate tools level ∷ rs) ≡ find_failure rs
  unfolding find_failure
  find_failure-pass rs e = ground arith

  find_failure-fail :
      (rs : List EvaluatorResult)
      → (evaluate tools level).passed ≡ false
      → find_failure (evaluate tools level ∷ rs) ≡ some (evaluate tools level)
  unfolding find_failure
  find_failure-fail rs e = ground arith

run_levels-Outcome :
    (tools : Tools) (levels : List EvaluatorLevel)
    → Outcome tools levels
        (run_levels true tools levels)
        (find_failure (run_levels true tools levels))
run_levels-Outcome tools [] = unfold run_levels find_failure all in (refl, refl)
run_levels-Outcome tools (level ∷ levels) =
    let rest = run_levels true tools levels in
    let later = run_levels-Outcome tools levels in
    elim (Bool-cases (evaluate tools level).passed) [
      | inl e ↦
          subst (λ rs. Outcome tools (level ∷ levels) rs (find_failure rs))
            (sym (run_levels-pass tools level levels e))
            (subst (Outcome tools (level ∷ levels) (evaluate tools level ∷ rest))
              (sym (find_failure-pass tools level levels rest e))
              (Outcome-later tools level levels rest (find_failure rest) e later))
      | inr e ↦
          subst (λ rs. Outcome tools (level ∷ levels) rs (find_failure rs))
            (sym (run_levels-fail tools level levels e))
            (subst (Outcome tools (level ∷ levels) (evaluate tools level ∷ []))
              (sym (find_failure-fail tools level levels [] e))
              ([], level, levels, refl, refl, e, unfold all in refl, refl))
    ]

-- With `fail_fast` the cascade either runs every level up to its maximum and all pass, and it reports
-- no failure, or it runs the levels up to the first that fails, reports that one, and runs none
-- after it.
pub run-Outcome :
    (config : CascadeConfig) (tools : Tools)
    → config.fail_fast ≡ true
    → Outcome tools
        (levels_up_to config.max_level)
        (run config tools).results
        (run config tools).first_failure
unfolding run from_results
run-Outcome config tools e =
    subst
      (λ b.
        Outcome tools (levels_up_to config.max_level)
          (run_levels b tools (levels_up_to config.max_level))
          (find_failure (run_levels b tools (levels_up_to config.max_level))))
      (sym e) (run_levels-Outcome tools (levels_up_to config.max_level))

find_failure-all :
    (rs : List EvaluatorResult) → all (λ r. r.passed) rs ≡ not (is_some (find_failure rs))
unfolding find_failure all
find_failure-all [] = refl
find_failure-all (r ∷ rs) = ground (arith, find_failure-all rs)

-- For any configuration and tools, the cascade has passed exactly where it reports no first failure.
pub run-all_passed :
    (config : CascadeConfig) (tools : Tools)
    → (run config tools).all_passed ≡ not (is_some (run config tools).first_failure)
unfolding run from_results
run-all_passed config tools =
    find_failure-all (run_levels config.fail_fast tools (levels_up_to config.max_level))

run_levels_from-rustc :
    (fail_fast : Bool) (tools : Tools) (levels : List EvaluatorLevel)
    → run_levels_from rustc fail_fast tools levels ≡ run_levels fail_fast tools levels
unfolding run_levels_from run_levels
run_levels_from-rustc fail_fast tools [] = refl
run_levels_from-rustc fail_fast tools (level ∷ levels) =
    ground (arith, run_levels_from-rustc fail_fast tools levels)

-- A run that starts from the lowest level skips nothing: it is the run of all levels.
pub run_from_level-rustc :
    (config : CascadeConfig) (tools : Tools) → run_from_level config rustc tools ≡ run config tools
unfolding run_from_level run
run_from_level-rustc config tools =
    ap from_results (run_levels_from-rustc config.fail_fast tools (levels_up_to config.max_level))
