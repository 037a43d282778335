-- ===== src/Base/Quorums.antt =====
-- Lists without repetition inside a given list, and the element that two majorities share.
use Prim.Native.Nat.{ℕ, ◌+◌, ◌≤◌, ◌<◌}
use mathlib.Core.Path.{◌≡◌, refl}
use mathlib.Core.Logic.{inl, inr}
use mathlib.Core.Bool.{Bool, true, false, not}
use mathlib.Core.List.{List, [], ◌∷◌, ◌++◌}
use native.Mathlib.Omega.{arith}
use verified_concurrent.Base.Tests.{◌==◌, Bool-cases}
use verified_concurrent.Base.Lists.{
  length, length-append, any, any-false, any-witness, contains, contains-append, contains-retain,
  retain, distinct,
}

abbrev pub without : ℕ → List ℕ → List ℕ
without a xs = retain (λ x. not (x == a)) xs

length-without_le : (a : ℕ) (xs : List ℕ) → length (without a xs) ≤ length xs
unfolding retain
length-without_le a [] = omega arith
length-without_le a (x ∷ xs) = ground (arith, length-without_le a xs)

length-without_lt : (a : ℕ) (xs : List ℕ) → contains a xs ≡ true → length (without a xs) < length xs
unfolding retain contains
length-without_lt a [] h = absurd (ground arith)
length-without_lt a (x ∷ xs) h = ground (arith, length-without_lt a xs, length-without_le a xs)

length-without_new :
    (a : ℕ) (xs : List ℕ) → contains a xs ≡ false → length (without a xs) ≡ length xs
unfolding retain contains
length-without_new a [] h = omega arith
length-without_new a (x ∷ xs) h = ground (arith, length-without_new a xs)

-- From a list without repetition just one element goes.
pub length-without :
    (a : ℕ) (xs : List ℕ)
    → distinct xs ≡ true
    → contains a xs ≡ true
    → length (without a xs) + 1 ≡ length xs
unfolding retain contains distinct
length-without a [] d h = absurd (ground arith)
length-without a (x ∷ xs) d h = ground (arith, length-without a xs, length-without_new a xs)

pub length-distinct :
    (xs ys : List ℕ)
    → distinct xs ≡ true
    → ((v : ℕ) → contains v xs ≡ true → contains v ys ≡ true)
    → length xs ≤ length ys
unfolding distinct contains
length-distinct [] ys d h = omega arith
length-distinct (x ∷ xs) ys d h =
    let rest =
      length-distinct xs (without x ys) (ground arith)
        (λ v m. ground (arith, h v, contains-retain (λ y. not (y == x)) ys v)) in
    let less = length-without_lt x ys (ground (arith, h x)) in omega arith

pub distinct-append :
    (xs ys : List ℕ)
    → distinct xs ≡ true
    → distinct ys ≡ true
    → ((v : ℕ) → contains v xs ≡ true → contains v ys ≡ false)
    → distinct (xs ++ ys) ≡ true
unfolding distinct contains
distinct-append [] ys d e h = e
distinct-append (x ∷ xs) ys d e h = ground (
  arith,
  h x,
  contains-append xs ys x,
  distinct-append xs ys (ground arith) e (λ v m. h v (ground arith)),
)

pub distinct-retain :
    (p : ℕ → Bool) (xs : List ℕ) → distinct xs ≡ true → distinct (retain p xs) ≡ true
unfolding retain distinct
distinct-retain p [] d = refl
distinct-retain p (x ∷ xs) d = ground (arith, contains-retain p xs x, distinct-retain p xs)

-- Two lists without repetition inside a third, together longer than it, have a common element.
pub common_element :
    (xs ys zs : List ℕ)
    → distinct xs ≡ true
    → distinct ys ≡ true
    → ((v : ℕ) → contains v xs ≡ true → contains v zs ≡ true)
    → ((v : ℕ) → contains v ys ≡ true → contains v zs ≡ true)
    → length zs < length xs + length ys
    → (v : ℕ) × (contains v xs ≡ true) × (contains v ys ≡ true)
common_element xs ys zs d e f g l = elim (Bool-cases (any (λ v. contains v ys) xs)) [
  | inl h ↦ any-witness (λ v. contains v ys) xs h
  | inr h ↦
      let disjoint = distinct-append xs ys d e (λ v m. any-false (λ v. contains v ys) xs v h m) in
      let short =
        length-distinct (xs ++ ys) zs disjoint
          (λ v m. ground (arith, contains-append xs ys v, f v, g v)) in
      absurd (omega (arith, length-append xs ys))
]
