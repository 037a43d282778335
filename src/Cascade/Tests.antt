-- ===== src/Cascade/Tests.antt =====
-- The cascade of crates/vf-evaluators/src/cascade.rs with tools of which one fails.
use verified_concurrent.Base.{◌≡◌, refl, true, false, some}
use verified_concurrent.Cascade.Run.{
  EvaluatorLevel, loom, dst, EvaluatorResult, CascadeConfig, Tools, levels_up_to, run,
}
use verified_concurrent.Cascade.Verdicts.{Outcome, run-Outcome}

-- Loom fails.
abbrev answers : EvaluatorLevel → EvaluatorResult
answers loom = record { evaluator = loom; passed = false; duration = 3 }
answers level = record { evaluator = level; passed = true; duration = 1 }

abbrev tools : Tools
tools = record { answer = answers; has_verus_file = false }

abbrev config : CascadeConfig
config = record { max_level = dst; fail_fast = true }

reports_loom : (run config tools).first_failure ≡ some (answers loom)
unfolding run
reports_loom = refl

run-Outcome_example :
    Outcome tools (levels_up_to dst) (run config tools).results (run config tools).first_failure
run-Outcome_example = run-Outcome config tools refl
