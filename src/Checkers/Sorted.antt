-- ===== src/Checkers/Sorted.antt =====
-- crates/vf-core/src/invariants/linked_list.rs and btree_plus.rs: the checkers of two ordered
-- structures, which are known by the keys that they report. A HashSet is a list in the order of the
-- iteration over it.
use verified_concurrent.Base.{
  ℕ, ◌+◌, Bool, not, Option, none, some, List, [], ◌∷◌, length, leb, ◌==◌, contains, retain,
  if◌then◌else◌,
}
use verified_concurrent.Base.Sets.{to_set}
use verified_concurrent.Checkers.Property.{PropertyResult, pass, fail}
use verified_concurrent.Checkers.Stack.{first_lost, first_duplicate}

-- What `trait LinkedListProperties` reports.
pub record LinkedListProperties : Type 0 where
  pub inserted_keys : List ℕ
  pub removed_keys : List ℕ
  pub reachable_keys : List ℕ

-- `struct LinkedListPropertyChecker`
pub record LinkedListPropertyChecker : Type 0 where
  pub list : LinkedListProperties
  pub dst_seed : Option ℕ

-- `inserted.difference(&removed)`
abbrev pub live_keys : LinkedListProperties → List ℕ
live_keys l = retain (λ k. not (contains k l.removed_keys)) l.inserted_keys

-- `check_no_lost_elements`
unfoldable pub check_no_lost_keys_of_list : LinkedListPropertyChecker → PropertyResult
unfolding first_lost retain contains
check_no_lost_keys_of_list c = elim (first_lost c.list.reachable_keys [] (live_keys c.list)) [
  | none ↦ pass 45
  | some k ↦ fail 45 (k ∷ []) (some (record { dst_seed = c.dst_seed }))
]

-- `check_no_duplicates`
unfoldable pub check_no_duplicate_keys : LinkedListPropertyChecker → PropertyResult
unfolding to_set first_duplicate
check_no_duplicate_keys c =
    let keys = c.list.reachable_keys in
    if not (length keys == length (to_set keys))
    then elim (first_duplicate [] keys) [ none ↦ pass 58 | some k ↦ fail 58 (k ∷ []) none ]
    else pass 58

-- The loop over the neighbours in a list, from the one at index `i` on.
unfoldable pub first_unsorted : ℕ → List ℕ → Option (List ℕ)
first_unsorted i [] = none
first_unsorted i (x ∷ xs) = elim xs [
  | [] ↦ none
  | y ∷ ys ↦ if leb y x then some (x ∷ y ∷ i ∷ (i + 1) ∷ []) else first_unsorted (i + 1) xs
]

abbrev pub order_result : ℕ → Option (List ℕ) → PropertyResult
order_result line none = pass line
order_result line (some ns) = fail line ns none

-- `check_insert_order_preserved`
unfoldable pub check_insert_order_preserved : LinkedListPropertyChecker → PropertyResult
unfolding first_unsorted
check_insert_order_preserved c = order_result 86 (first_unsorted 0 c.list.reachable_keys)

-- `check_all` of a linked list
unfoldable pub check_all_keys : LinkedListPropertyChecker → List PropertyResult
unfolding check_no_lost_keys_of_list check_no_duplicate_keys check_insert_order_preserved
check_all_keys c =
    check_no_lost_keys_of_list c ∷ check_no_duplicate_keys c ∷ check_insert_order_preserved c ∷ []

-- What `trait BTreePlusProperties` reports.
pub record BTreePlusProperties : Type 0 where
  pub logical_keys : List ℕ
  pub leaf_scan_keys : List ℕ
  pub is_balanced : Bool
  pub height : ℕ

-- `check_sorted_order`
unfoldable pub check_sorted_order : BTreePlusProperties → PropertyResult
unfolding first_unsorted
check_sorted_order t = order_result 45 (first_unsorted 0 t.leaf_scan_keys)

-- `check_balanced_height`
abbrev pub check_balanced_height : BTreePlusProperties → PropertyResult
check_balanced_height t = if not t.is_balanced then fail 58 (t.height ∷ []) none else pass 58

-- `check_no_lost_keys`
unfoldable pub check_no_lost_keys : BTreePlusProperties → PropertyResult
unfolding first_lost
check_no_lost_keys t = elim (first_lost t.leaf_scan_keys [] t.logical_keys) [
  | none ↦ pass 86
  | some k ↦ fail 86 (k ∷ []) none
]

-- `check_all` of a B+ tree
unfoldable pub check_all_leaves : BTreePlusProperties → List PropertyResult
unfolding check_sorted_order check_no_lost_keys
check_all_leaves t = check_sorted_order t ∷ check_balanced_height t ∷ check_no_lost_keys t ∷ []
