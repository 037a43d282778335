-- ===== src/Base/Sets.antt =====
-- `BTreeSet<u64>` and `HashSet<u64>` as ascending lists without repetition.
use Prim.Native.Nat.{ℕ}
use mathlib.Core.Path.{◌≡◌, refl}
use mathlib.Core.Bool.{◌&&◌, ◌||◌, not}
use mathlib.Core.List.{List, [], ◌∷◌}
use native.Mathlib.Omega.{arith}
use verified_concurrent.Base.Tests.{◌==◌, ltb, if◌then◌else◌}
use verified_concurrent.Base.Lists.{contains, retain, contains-retain}

-- `insert`, which leaves a set that holds the element as it is.
unfoldable pub set_insert : ℕ → List ℕ → List ℕ
set_insert a [] = a ∷ []
set_insert a (x ∷ xs) =
    if a == x then x ∷ xs else if ltb a x then a ∷ x ∷ xs else x ∷ set_insert a xs

unfoldable pub set_remove : ℕ → List ℕ → List ℕ
unfolding retain
set_remove a = retain (λ x. not (x == a))

-- `collect` into a set
unfoldable pub to_set : List ℕ → List ℕ
unfolding set_insert
to_set [] = []
to_set (x ∷ xs) = set_insert x (to_set xs)

pub contains-set_insert :
    (a : ℕ) (xs : List ℕ) (b : ℕ) → contains b (set_insert a xs) ≡ (b == a || contains b xs)
unfolding set_insert contains
contains-set_insert a [] b = refl
contains-set_insert a (x ∷ xs) b = ground (arith, contains-set_insert a xs b)

pub contains-set_remove :
    (a : ℕ) (xs : List ℕ) (b : ℕ) → contains b (set_remove a xs) ≡ (contains b xs && not (b == a))
unfolding set_remove
contains-set_remove a xs b = contains-retain (λ x. not (x == a)) xs b

pub contains-to_set : (xs : List ℕ) (b : ℕ) → contains b (to_set xs) ≡ contains b xs
unfolding to_set contains
contains-to_set [] b = refl
contains-to_set (x ∷ xs) b =
    ground (arith, contains-set_insert x (to_set xs) b, contains-to_set xs b)
