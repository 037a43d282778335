-- ===== src/Checkers/Property.antt =====
-- crates/vf-core/src/property.rs: the results of property checks and what a checker makes of them.
-- The texts of a result are left out: a property is known by its line in its specification, and a
-- violation by the numbers that its text reports.
use verified_concurrent.Base.{
  ℕ, ◌+◌, ◌≡◌, refl, ap, Bool, true, false, not, Option, none, some, List, [], ◌∷◌, ◌++◌, arith,
  length, all, retain, if◌then◌else◌, inl, inr, Bool-cases, subst, ◌↔◌,
}

-- `struct Counterexample`, without its texts: the seed that reproduces it.
pub record Counterexample : Type 0 where
  pub dst_seed : Option ℕ

-- `struct PropertyResult`
pub record PropertyResult : Type 0 where
  pub tla_line : ℕ
  pub holds : Bool
  pub violation : Option (List ℕ)
  pub counterexample : Option Counterexample

-- `PropertyResult::pass`
abbrev pub pass : ℕ → PropertyResult
pass line = record { tla_line = line; holds = true; violation = none; counterexample = none }

-- `PropertyResult::fail`
abbrev pub fail : ℕ → List ℕ → Option Counterexample → PropertyResult
fail line v ce = record { tla_line = line; holds = false; violation = some v; counterexample = ce }

-- `PropertyChecker::verify_all`, on the results of `check_all`: `none` for `Ok`, and else the error.
unfoldable pub verify_all : List PropertyResult → Option PropertyResult
verify_all [] = none
verify_all (r ∷ rs) = if not r.holds then some r else verify_all rs

-- `PropertyChecker::all_hold`
unfoldable pub all_hold : List PropertyResult → Bool
unfolding all
all_hold rs = all (λ r. r.holds) rs

-- `struct PropertySummary`
pub record PropertySummary : Type 0 where
  pub passed : ℕ
  pub failed : ℕ
  pub total : ℕ
  pub results : List PropertyResult

-- `PropertyChecker::summary`
unfoldable pub summary : List PropertyResult → PropertySummary
unfolding retain
summary rs = record {
  passed = length (retain (λ r. r.holds) rs);
  failed = length (retain (λ r. not r.holds) rs);
  total = length rs;
  results = rs;
}

-- What the answer of `verify_all` says of the results: none failed, or it is the first that did.
abbrev pub Verdict : List PropertyResult → Option PropertyResult → Type 0
Verdict rs none = all_hold rs ≡ true
Verdict rs (some r) =
    (before : List PropertyResult) × (later : List PropertyResult) × (rs ≡ before ++ r ∷ later)
    × (all_hold before ≡ true)
    × (r.holds ≡ false)

Verdict-cons :
    (r : PropertyResult) (rs : List PropertyResult) (o : Option PropertyResult)
    → r.holds ≡ true
    → Verdict rs o
    → Verdict (r ∷ rs) o
unfolding all_hold all
Verdict-cons r rs none e v = ground arith
Verdict-cons r rs (some q) e (before, later, f, a, b) =
    (r ∷ before, later, ap (λ xs. r ∷ xs) f, ground arith, b)

-- `verify_all` returns Ok exactly where all results hold, and otherwise the first that does not.
pub verify_all-Verdict : (rs : List PropertyResult) → Verdict rs (verify_all rs)
unfolding verify_all all_hold all
verify_all-Verdict [] = refl
verify_all-Verdict (r ∷ rs) = elim (Bool-cases r.holds) [
  | inl e ↦
      subst (Verdict (r ∷ rs)) (ground arith)
        (Verdict-cons r rs (verify_all rs) e (verify_all-Verdict rs))
  | inr e ↦ subst (Verdict (r ∷ rs)) (first e) ([], rs, refl, refl, e)
]
  where
    first : r.holds ≡ false → some r ≡ verify_all (r ∷ rs)
    first e = ground arith

-- The debug assertion of `summary` holds, passed and failed add up to the total, and nothing failed
-- exactly where all results hold.
pub summary-counts :
    (rs : List PropertyResult)
    → ((summary rs).passed + (summary rs).failed ≡ (summary rs).total)
      × (((summary rs).failed ≡ 0) ↔ (all_hold rs ≡ true))
unfolding summary all_hold all retain
summary-counts [] = ground arith
summary-counts (r ∷ rs) = let (a, b) = summary-counts rs in ground arith
