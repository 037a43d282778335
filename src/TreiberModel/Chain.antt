-- ===== src/TreiberModel/Chain.antt =====
-- The linked list of the Treiber stack (crates/vf-stateright/src/treiber_stack.rs) as a list of its
-- cells: the identifiers and the values of its nodes, from the head.
use verified_concurrent.Base.{
  ℕ, ◌+◌, zero, suc, ◌<◌, ◌≡◌, refl, Bool, true, false, ◌||◌, Option, none, some, List, [], ◌∷◌,
  arith, ◌==◌, length, is_some, contains, distinct,
}
use verified_concurrent.Base.Sets.{set_insert, to_set, contains-to_set}
use verified_concurrent.Base.Maps.{Map, lookup, insert, lookup-insert}
use verified_concurrent.TreiberModel.State.{Node, chase, no_duplicates}

abbrev pub Cells : Type 0
Cells = List (ℕ × ℕ)

-- The nodes from `h` on are the given cells, and the last points to nothing.
abbrev pub Chain : Map Node → Option ℕ → Cells → Type 0
Chain m h [] = h ≡ none
Chain m h ((i, v) ∷ cs) =
    (h ≡ some i)
    × (next : Option ℕ) × (lookup i m ≡ some (record { value = v; next = next }))
    × Chain m next cs

abbrev pub values : Cells → List ℕ
values [] = []
values ((i, v) ∷ cs) = v ∷ values cs

abbrev pub on_list : ℕ → Cells → Bool
on_list j [] = false
on_list j ((i, v) ∷ cs) = j == i || on_list j cs

-- A write to a node that is not on the list leaves the list as it is.
pub Chain-insert :
    (m : Map Node) (h : Option ℕ) (cs : Cells) (j : ℕ) (n : Node)
    → on_list j cs ≡ false
    → Chain m h cs
    → Chain (insert j n m) h cs
Chain-insert m h [] j n o c = c
Chain-insert m h ((i, v) ∷ cs) j n o (e, next, f, c) =
    (e, next, ground (arith, lookup-insert j i n m), Chain-insert m next cs j n (ground arith) c)

-- A node on the list exists.
pub on_list-lookup :
    (m : Map Node) (h : Option ℕ) (cs : Cells) (j : ℕ)
    → Chain m h cs
    → on_list j cs ≡ true
    → is_some (lookup j m) ≡ true
on_list-lookup m h [] j c o = absurd (ground arith)
on_list-lookup m h ((i, v) ∷ cs) j (e, next, f, c) o = ground (arith, on_list-lookup m next cs j c)

-- With more fuel than cells the loop of `contents` ends, with the values of the cells.
pub chase-Chain :
    (fuel : ℕ) (m : Map Node) (h : Option ℕ) (cs : Cells)
    → length cs < fuel
    → Chain m h cs
    → chase fuel m h ≡ some (values cs)
unfolding chase
chase-Chain zero m h cs l c = absurd (omega arith)
chase-Chain (suc fuel) m h [] l c = rw c
chase-Chain (suc fuel) m h ((i, v) ∷ cs) l (e, next, f, c) =
    ground (arith, chase-Chain fuel m next cs (omega arith) c)

pub length-set_insert :
    (a : ℕ) (xs : List ℕ) → contains a xs ≡ false → length (set_insert a xs) ≡ length xs + 1
unfolding set_insert contains
length-set_insert a [] h = omega arith
length-set_insert a (x ∷ xs) h = ground (arith, length-set_insert a xs)

pub length-to_set : (xs : List ℕ) → distinct xs ≡ true → length (to_set xs) ≡ length xs
unfolding to_set distinct
length-to_set [] d = refl
length-to_set (x ∷ xs) d =
    ground (arith, length-to_set xs, contains-to_set xs x, length-set_insert x (to_set xs))

pub distinct-no_duplicates : (xs : List ℕ) → distinct xs ≡ true → no_duplicates xs ≡ true
unfolding no_duplicates
distinct-no_duplicates xs d = ground (arith, length-to_set xs d)
