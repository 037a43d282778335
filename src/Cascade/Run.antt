-- ===== src/Cascade/Run.antt =====
-- crates/vf-evaluators/src/cascade.rs and result.rs: the levels, the loop over them and the result
-- that it adds up. What an evaluator answers comes from a tool outside the program and is a
-- parameter; the texts of the answers are left out, and a duration is a number.
use verified_concurrent.Base.{
  ℕ, ◌+◌, Bool, true, ◌&&◌, not, Option, none, some, List, [], ◌∷◌, all, ltb, if◌then◌else◌,
}

-- `enum EvaluatorLevel`
pub data EvaluatorLevel : Type 0 where
  rustc : EvaluatorLevel
  miri : EvaluatorLevel
  loom : EvaluatorLevel
  dst : EvaluatorLevel
  stateright : EvaluatorLevel
  kani : EvaluatorLevel
  verus : EvaluatorLevel

-- `level as u8`
abbrev pub rank : EvaluatorLevel → ℕ
rank rustc = 0
rank miri = 1
rank loom = 2
rank dst = 3
rank stateright = 4
rank kani = 5
rank verus = 6

-- `EvaluatorLevel::levels_up_to`
abbrev pub levels_up_to : EvaluatorLevel → List EvaluatorLevel
levels_up_to rustc = rustc ∷ []
levels_up_to miri = rustc ∷ miri ∷ []
levels_up_to loom = rustc ∷ miri ∷ loom ∷ []
levels_up_to dst = rustc ∷ miri ∷ loom ∷ dst ∷ []
levels_up_to stateright = rustc ∷ miri ∷ loom ∷ dst ∷ stateright ∷ []
levels_up_to kani = rustc ∷ miri ∷ loom ∷ dst ∷ stateright ∷ kani ∷ []
levels_up_to verus = rustc ∷ miri ∷ loom ∷ dst ∷ stateright ∷ kani ∷ verus ∷ []

-- `struct EvaluatorResult`
pub record EvaluatorResult : Type 0 where
  pub evaluator : EvaluatorLevel
  pub passed : Bool
  pub duration : ℕ

-- `EvaluatorResult::skip`, with no duration: it counts as passed.
abbrev pub skip : EvaluatorLevel → EvaluatorResult
skip level = record { evaluator = level; passed = true; duration = 0 }

-- `struct CascadeResult`
pub record CascadeResult : Type 0 where
  pub results : List EvaluatorResult
  pub all_passed : Bool
  pub first_failure : Option EvaluatorResult
  pub total_duration : ℕ

-- `results.iter().find(|r| !r.passed)`
unfoldable pub find_failure : List EvaluatorResult → Option EvaluatorResult
find_failure [] = none
find_failure (r ∷ rs) = if not r.passed then some r else find_failure rs

unfoldable pub sum_durations : List EvaluatorResult → ℕ
sum_durations [] = 0
sum_durations (r ∷ rs) = r.duration + sum_durations rs

-- `CascadeResult::from_results`
unfoldable pub from_results : List EvaluatorResult → CascadeResult
unfolding all find_failure sum_durations
from_results rs = record {
  results = rs;
  all_passed = all (λ r. r.passed) rs;
  first_failure = find_failure rs;
  total_duration = sum_durations rs;
}

-- `struct CascadeConfig`, as far as the loop reads it.
pub record CascadeConfig : Type 0 where
  pub max_level : EvaluatorLevel
  pub fail_fast : Bool

-- What the tools answer for a crate, and whether it has a file of Verus proofs.
pub record Tools : Type 0 where
  pub answer : EvaluatorLevel → EvaluatorResult
  pub has_verus_file : Bool

-- The `match` on the level.
abbrev pub evaluate : Tools → EvaluatorLevel → EvaluatorResult
evaluate tools verus = if tools.has_verus_file then tools.answer verus else skip verus
evaluate tools level = tools.answer level

-- The loop of `run`
unfoldable pub run_levels : Bool → Tools → List EvaluatorLevel → List EvaluatorResult
run_levels fail_fast tools [] = []
run_levels fail_fast tools (level ∷ levels) =
    let result = evaluate tools level in
    let rest = run_levels fail_fast tools levels in
    if not result.passed && fail_fast then result ∷ [] else result ∷ rest

-- `run`
unfoldable pub run : CascadeConfig → Tools → CascadeResult
unfolding run_levels from_results
run config tools = from_results (run_levels config.fail_fast tools (levels_up_to config.max_level))

-- The loop of `run_on_code_from_level`
unfoldable pub run_levels_from :
    EvaluatorLevel → Bool → Tools → List EvaluatorLevel → List EvaluatorResult
run_levels_from start fail_fast tools [] = []
run_levels_from start fail_fast tools (level ∷ levels) =
    let result = evaluate tools level in
    let rest = run_levels_from start fail_fast tools levels in
    if ltb (rank level) (rank start)
    then skip level ∷ rest
    else if not result.passed && fail_fast
    then result ∷ []
    else result ∷ rest

-- `run_on_code_from_level` once the crate is written.
unfoldable pub run_from_level : CascadeConfig → EvaluatorLevel → Tools → CascadeResult
unfolding run_levels_from from_results
run_from_level config start tools =
    from_results (run_levels_from start config.fail_fast tools (levels_up_to config.max_level))
