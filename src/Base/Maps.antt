-- ===== src/Base/Maps.antt =====
-- `BTreeMap` and `HashMap` with numbers for keys, as association lists in the order of the keys.
-- An iteration over a map visits its keys and looks each of them up.
use Prim.Native.Nat.{ℕ}
use mathlib.Core.Path.{◌≡◌, refl}
use mathlib.Core.Option
use mathlib.Core.Option.{Option, none, some}
use mathlib.Core.List.{List, [], ◌∷◌}
use native.Mathlib.Omega.{arith}
use verified_concurrent.Base.Tests.{◌==◌, ltb, if◌then◌else◌, is_some, unwrap_or}
use verified_concurrent.Base.Lists.{contains}

abbrev pub Map {ℓ} : Type ℓ → Type ℓ
Map V = List (ℕ × V)

module _ {ℓ} {V : Type ℓ} where
  unfoldable pub lookup : ℕ → Map V → Option V
  lookup k [] = none
  lookup k ((j, v) ∷ m) = if k == j then some v else lookup k m

  unfoldable pub insert : ℕ → V → Map V → Map V
  insert k v [] = (k, v) ∷ []
  insert k v ((j, w) ∷ m) =
      if k == j then (k, v) ∷ m else if ltb k j then (k, v) ∷ (j, w) ∷ m else (j, w) ∷ insert k v m

  unfoldable pub keys : Map V → List ℕ
  keys [] = []
  keys ((j, v) ∷ m) = j ∷ keys m

  -- `m.get(k).copied().unwrap_or(d)`
  abbrev pub get_or : V → ℕ → Map V → V
  get_or d k m = unwrap_or d (lookup k m)

  -- `for v in m.values_mut() { *v = f(*v) }`
  unfoldable pub map_values : (V → V) → Map V → Map V
  map_values f [] = []
  map_values f ((j, v) ∷ m) = (j, f v) ∷ map_values f m

  -- `keys.iter().map(|k| (k, v)).collect()`
  unfoldable pub fill : V → List ℕ → Map V
  unfolding insert
  fill v [] = []
  fill v (k ∷ ks) = insert k v (fill v ks)

  pub lookup-insert :
      (k j : ℕ) (v : V) (m : Map V)
      → lookup j (insert k v m) ≡ (if j == k then some v else lookup j m)
  unfolding lookup insert
  lookup-insert k j v [] = refl
  lookup-insert k j v ((i, w) ∷ m) = ground (arith, lookup-insert k j v m)

  pub lookup-map_values :
      (f : V → V) (k : ℕ) (m : Map V) → lookup k (map_values f m) ≡ Option.map f (lookup k m)
  unfolding lookup map_values
  lookup-map_values f k [] = refl
  lookup-map_values f k ((j, v) ∷ m) = ground (arith, lookup-map_values f k m)

  pub lookup-fill :
      (v : V) (k : ℕ) (ks : List ℕ)
      → lookup k (fill v ks) ≡ (if contains k ks then some v else none)
  unfolding lookup fill contains
  lookup-fill v k [] = refl
  lookup-fill v k (j ∷ ks) = ground (arith, lookup-insert j k v (fill v ks), lookup-fill v k ks)

  pub contains-keys : (k : ℕ) (m : Map V) → contains k (keys m) ≡ is_some (lookup k m)
  unfolding lookup keys contains
  contains-keys k [] = refl
  contains-keys k ((j, v) ∷ m) = ground (arith, contains-keys k m)
