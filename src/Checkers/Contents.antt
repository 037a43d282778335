-- ===== src/Checkers/Contents.antt =====
-- crates/vf-core/src/invariants/stack.rs: what the checks of the elements of a stack decide.
use verified_concurrent.Base.{
  ℕ, ◌+◌, ◌≤◌, ◌≡◌, refl, Bool, true, false, ◌&&◌, ◌||◌, not, Option, none, some, List, [], ◌∷◌,
  arith, length, contains, distinct, all, ltb, ◌==◌, if◌then◌else◌, ◌↔◌, Bool-cases, Option-cases,
  inl, inr,
}
use verified_concurrent.Base.Sets.{set_insert, to_set, contains-to_set}
use verified_concurrent.Checkers.Stack.{
  StackPropertyChecker, first_lost, check_no_lost_elements, first_duplicate, check_no_duplicates,
}

-- What the answer of the search for a lost element says: there is none, or it is one.
abbrev Lost : List ℕ → List ℕ → List ℕ → Option ℕ → Type 0
Lost cs ps es none = (e : ℕ) → contains e es ≡ true → (contains e cs || contains e ps) ≡ true
Lost cs ps es (some e) = (contains e es ≡ true) × (contains e cs ≡ false) × (contains e ps ≡ false)

Lost-later :
    (cs ps es : List ℕ) (x : ℕ) (o : Option ℕ)
    → (contains x cs || contains x ps) ≡ true
    → Lost cs ps es o
    → Lost cs ps (x ∷ es) o
unfolding contains
Lost-later cs ps es x none h l = λ e m. ground (arith, l e)
Lost-later cs ps es x (some e) h l = ground arith

first_lost-Lost : (cs ps es : List ℕ) → Lost cs ps es (first_lost cs ps es)
unfolding first_lost
first_lost-Lost cs ps [] = λ e m. absurd (unfold contains in ground arith)
first_lost-Lost cs ps (x ∷ es) = elim (Bool-cases (not (contains x cs) && not (contains x ps))) [
  | inl h ↦ rw (h, first_lost) (unfold contains in ground arith, ground arith, ground arith)
  | inr h ↦
      rw (h, first_lost)
        (Lost-later cs ps es x (first_lost cs ps es) (ground arith) (first_lost-Lost cs ps es))
]

-- The search finds nothing exactly where nothing is lost.
pub first_lost_iff :
    (cs ps es : List ℕ)
    → (first_lost cs ps es ≡ none)
      ↔ ((e : ℕ) → contains e es ≡ true → (contains e cs || contains e ps) ≡ true)
first_lost_iff cs ps es = found (first_lost cs ps es) (first_lost-Lost cs ps es)
  where
    found :
        (o : Option ℕ)
        → Lost cs ps es o
        → (o ≡ none) ↔ ((e : ℕ) → contains e es ≡ true → (contains e cs || contains e ps) ≡ true)
    found none l = (λ h. l, λ h. refl)
    found (some e) l = (λ h. absurd (ground arith), λ h. let i = h e l.0 in absurd (ground arith))

-- NoLostElements holds exactly where each pushed element is in the stack or has been popped.
pub check_no_lost_elements_iff :
    (c : StackPropertyChecker)
    → ((check_no_lost_elements c).holds ≡ true) ↔ (
        (e : ℕ)
        → contains e c.stack.pushed_elements ≡ true
        → (contains e c.stack.current_contents || contains e c.stack.popped_elements) ≡ true)
unfolding check_no_lost_elements
check_no_lost_elements_iff c =
    let cs = c.stack.current_contents in
    let ps = c.stack.popped_elements in
    let es = c.stack.pushed_elements in
    let (to, from) = first_lost_iff cs ps es in
    elim (Option-cases (first_lost cs ps es)) [
      | inl e ↦ (λ h. to e, λ h. ground arith)
      | inr (x, e) ↦ (λ h. absurd (ground arith), λ h. let f = from h in absurd (ground arith))
    ]

abbrev pub ascending : List ℕ → Bool
ascending [] = true
ascending (x ∷ xs) = all (ltb x) xs && ascending xs

pub above-weaken :
    (a x : ℕ) (xs : List ℕ) → ltb a x ≡ true → all (ltb x) xs ≡ true → all (ltb a) xs ≡ true
unfolding all
above-weaken a x [] h i = refl
above-weaken a x (y ∷ xs) h i = ground (arith, above-weaken a x xs)

pub above-contains : (a : ℕ) (xs : List ℕ) → all (ltb a) xs ≡ true → contains a xs ≡ false
unfolding all contains
above-contains a [] h = refl
above-contains a (x ∷ xs) h = ground (arith, above-contains a xs)

all-set_insert :
    (p : ℕ → Bool) (a : ℕ) (xs : List ℕ)
    → p a ≡ true
    → all p xs ≡ true
    → all p (set_insert a xs) ≡ true
unfolding set_insert all
all-set_insert p a [] h i = ground arith
all-set_insert p a (x ∷ xs) h i = ground (arith, all-set_insert p a xs)

ascending-set_insert :
    (a : ℕ) (xs : List ℕ) → ascending xs ≡ true → ascending (set_insert a xs) ≡ true
unfolding set_insert all
ascending-set_insert a [] h = refl
ascending-set_insert a (x ∷ xs) h =
    ground (arith, above-weaken a x xs, ascending-set_insert a xs, all-set_insert (ltb x) a xs)

to_set-ascending : (xs : List ℕ) → ascending (to_set xs) ≡ true
unfolding to_set
to_set-ascending [] = refl
to_set-ascending (x ∷ xs) = ascending-set_insert x (to_set xs) (to_set-ascending xs)

-- An insertion into a set makes it longer by one, or leaves it as it is.
length-set_insert_set :
    (a : ℕ) (xs : List ℕ)
    → ascending xs ≡ true
    → length (set_insert a xs) ≡ (if contains a xs then length xs else length xs + 1)
unfolding set_insert contains
length-set_insert_set a [] h = omega arith
length-set_insert_set a (x ∷ xs) h =
    ground (arith, length-set_insert_set a xs, above-weaken a x xs, above-contains a xs)

length-to_set_le : (xs : List ℕ) → length (to_set xs) ≤ length xs
unfolding to_set
length-to_set_le [] = omega arith
length-to_set_le (x ∷ xs) =
    ground (arith, length-to_set_le xs, length-set_insert_set x (to_set xs) (to_set-ascending xs))

-- A list is as long as its set exactly where it has no repetition.
length-to_set_iff : (xs : List ℕ) → (length xs == length (to_set xs)) ≡ distinct xs
unfolding to_set distinct
length-to_set_iff [] = refl
length-to_set_iff (x ∷ xs) = ground (
  arith,
  length-to_set_iff xs,
  length-to_set_le xs,
  contains-to_set xs x,
  length-set_insert_set x (to_set xs) (to_set-ascending xs),
)

-- The search finds nothing only in a list without repetition that avoids what was seen.
first_duplicate-none :
    (seen xs : List ℕ)
    → first_duplicate seen xs ≡ none
    → (distinct xs ≡ true) × ((e : ℕ) → contains e seen ≡ true → contains e xs ≡ false)
unfolding first_duplicate distinct contains
first_duplicate-none seen [] h = (refl, λ e m. refl)
first_duplicate-none seen (x ∷ xs) h =
    let f : contains x seen ≡ false = ground arith in
    let (a, b) = first_duplicate-none (x ∷ seen) xs (ground arith) in
    (ground (arith, b x), λ e m. ground (arith, b e))

-- NoDuplicates holds exactly where no element is in the stack twice; in particular the search for
-- the duplicate to report finds one whenever the lengths differ.
pub check_no_duplicates-distinct :
    (c : StackPropertyChecker) → (check_no_duplicates c).holds ≡ distinct c.stack.current_contents
unfolding check_no_duplicates
check_no_duplicates-distinct c =
    let xs = c.stack.current_contents in
    elim (Option-cases (first_duplicate [] xs)) [
      | inl e ↦ ground (arith, length-to_set_iff xs, first_duplicate-none [] xs e)
      | inr (d, e) ↦ ground (arith, length-to_set_iff xs)
    ]
