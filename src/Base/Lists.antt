-- ===== src/Base/Lists.antt =====
-- Vectors and iterator adaptors of the source as lists: `any`, `all`, `retain`, membership.
use Prim.Native.Nat.{ℕ, zero, suc, ◌+◌}
use mathlib.Core.Path.{◌≡◌, refl}
use mathlib.Core.Logic.{inl, inr}
use mathlib.Core.Bool.{Bool, true, false, ◌&&◌, ◌||◌, not}
use mathlib.Core.Option.{Option, none, some}
use mathlib.Core.List.{List, [], ◌∷◌, ◌++◌}
use native.Mathlib.Omega.{arith}
use verified_concurrent.Base.Tests.{◌==◌, if◌then◌else◌, Bool-cases}

module _ {ℓ} {A : Type ℓ} where
  abbrev pub length : List A → ℕ
  length [] = 0
  length (x ∷ xs) = suc (length xs)

  abbrev pub get_elem? : List A → ℕ → Option A
  get_elem? [] i = none
  get_elem? (x ∷ xs) zero = some x
  get_elem? (x ∷ xs) (suc i) = get_elem? xs i

  -- `Vec::truncate`
  abbrev pub take : ℕ → List A → List A
  take zero xs = []
  take (suc n) [] = []
  take (suc n) (x ∷ xs) = x ∷ take n xs

  -- `slice::last`
  abbrev pub last : List A → Option A
  last [] = none
  last (x ∷ xs) = elim (last xs) [ none ↦ some x | some y ↦ some y ]

  pub length-append : (xs ys : List A) → length (xs ++ ys) ≡ length xs + length ys
  length-append [] ys = omega arith
  length-append (x ∷ xs) ys = omega (arith, length-append xs ys)

  pub append_nil : (xs : List A) → xs ++ [] ≡ xs
  append_nil [] = refl
  append_nil (x ∷ xs) = ground (arith, append_nil xs)

  pub append_assoc : (xs ys zs : List A) → (xs ++ ys) ++ zs ≡ xs ++ (ys ++ zs)
  append_assoc [] ys zs = refl
  append_assoc (x ∷ xs) ys zs = ground (arith, append_assoc xs ys zs)

  -- `Iterator::any`, `Iterator::all` and `Vec::retain`
  unfoldable pub any : (A → Bool) → List A → Bool
  any p [] = false
  any p (x ∷ xs) = p x || any p xs

  unfoldable pub all : (A → Bool) → List A → Bool
  all p [] = true
  all p (x ∷ xs) = p x && all p xs

  unfoldable pub retain : (A → Bool) → List A → List A
  retain p [] = []
  retain p (x ∷ xs) = if p x then x ∷ retain p xs else retain p xs

  abbrev pub is_empty : List A → Bool
  is_empty [] = true
  is_empty (x ∷ xs) = false

  pub all-append : (p : A → Bool) (xs ys : List A) → all p (xs ++ ys) ≡ (all p xs && all p ys)
  unfolding all
  all-append p [] ys = refl
  all-append p (x ∷ xs) ys = ground (arith, all-append p xs ys)

  pub all-get_elem? :
      (p : A → Bool) (xs : List A) (i : ℕ) (a : A)
      → all p xs ≡ true
      → get_elem? xs i ≡ some a
      → p a ≡ true
  unfolding all
  all-get_elem? p [] i a h e = absurd (ground arith)
  all-get_elem? p (x ∷ xs) zero a h e = ground arith
  all-get_elem? p (x ∷ xs) (suc i) a h e = all-get_elem? p xs i a (ground arith) e

-- `contains` of a vector or a set of identifiers
unfoldable pub contains : ℕ → List ℕ → Bool
contains a [] = false
contains a (x ∷ xs) = a == x || contains a xs

pub any-false :
    (p : ℕ → Bool) (xs : List ℕ) (a : ℕ) → any p xs ≡ false → contains a xs ≡ true → p a ≡ false
unfolding any contains
any-false p [] a h m = ground arith
any-false p (x ∷ xs) a h m = ground (arith, any-false p xs a)

pub any-true :
    (p : ℕ → Bool) (xs : List ℕ) (a : ℕ) → contains a xs ≡ true → p a ≡ true → any p xs ≡ true
unfolding any contains
any-true p [] a m h = ground arith
any-true p (x ∷ xs) a m h = ground (arith, any-true p xs a)

pub any-witness :
    (p : ℕ → Bool) (xs : List ℕ) → any p xs ≡ true → (a : ℕ) × (contains a xs ≡ true) × (p a ≡ true)
unfolding any contains
any-witness p [] h = absurd (ground arith)
any-witness p (x ∷ xs) h = elim (Bool-cases (p x)) [
  | inl e ↦ (x, ground arith, e)
  | inr e ↦ let (a, m, q) = any-witness p xs (ground arith) in (a, ground arith, q)
]

pub all-true :
    (p : ℕ → Bool) (xs : List ℕ) → ((a : ℕ) → contains a xs ≡ true → p a ≡ true) → all p xs ≡ true
unfolding all contains
all-true p [] h = refl
all-true p (x ∷ xs) h = ground (arith, h x, all-true p xs (λ a m. h a (ground arith)))

pub all-elim :
    (p : ℕ → Bool) (xs : List ℕ) (a : ℕ) → all p xs ≡ true → contains a xs ≡ true → p a ≡ true
unfolding all contains
all-elim p [] a h m = ground arith
all-elim p (x ∷ xs) a h m = ground (arith, all-elim p xs a)

pub contains-retain :
    (p : ℕ → Bool) (xs : List ℕ) (a : ℕ) → contains a (retain p xs) ≡ (contains a xs && p a)
unfolding retain contains
contains-retain p [] a = refl
contains-retain p (x ∷ xs) a = ground (arith, contains-retain p xs a)

pub contains-append :
    (xs ys : List ℕ) (a : ℕ) → contains a (xs ++ ys) ≡ (contains a xs || contains a ys)
unfolding contains
contains-append [] ys a = refl
contains-append (x ∷ xs) ys a = ground (arith, contains-append xs ys a)

-- No element occurs twice.
unfoldable pub distinct : List ℕ → Bool
unfolding contains
distinct [] = true
distinct (x ∷ xs) = not (contains x xs) && distinct xs
