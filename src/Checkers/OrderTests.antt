-- ===== src/Checkers/OrderTests.antt =====
-- Reports of a linked list and a B+ tree to their checkers (crates/vf-core/src/invariants/linked_list.rs
-- and btree_plus.rs), and the theorem about the first at one.
use verified_concurrent.Base.{ℕ, ◌≡◌, refl, true, false, none, [], ◌∷◌, ◌↔◌, contains}
use verified_concurrent.Checkers.Property.{all_hold, verify_all}
use verified_concurrent.Checkers.Contents.{ascending}
use verified_concurrent.Checkers.Sorted.{
  LinkedListPropertyChecker, check_all_keys, BTreePlusProperties, check_all_leaves,
}
use verified_concurrent.Checkers.Order.{check_all_keys_iff}

abbrev unsorted : LinkedListPropertyChecker
unsorted = record {
  list = record {
    inserted_keys = 1 ∷ 2 ∷ 3 ∷ [];
    removed_keys = 2 ∷ [];
    reachable_keys = 3 ∷ 1 ∷ [];
  };
  dst_seed = none;
}

check_all_keys_iff_example : (all_hold (check_all_keys unsorted) ≡ true) ↔ (
    (ascending (3 ∷ 1 ∷ []) ≡ true)
    × ((k : ℕ)
        → contains k (1 ∷ 2 ∷ 3 ∷ []) ≡ true
        → contains k (2 ∷ []) ≡ false
        → contains k (3 ∷ 1 ∷ []) ≡ true))
check_all_keys_iff_example = check_all_keys_iff unsorted

-- A key in the leaves that is not in the map passes.
abbrev phantom_leaf : BTreePlusProperties
phantom_leaf = record {
  logical_keys = 1 ∷ [];
  leaf_scan_keys = 1 ∷ 5 ∷ [];
  is_balanced = true;
  height = 1;
}

phantom_leaf_passes : verify_all (check_all_leaves phantom_leaf) ≡ none
unfolding verify_all check_all_leaves
phantom_leaf_passes = refl
