-- ===== src/Checkers/Order.antt =====
-- What the checks of crates/vf-core/src/invariants/linked_list.rs and btree_plus.rs decide.
use verified_concurrent.Base.{
  ℕ, ◌+◌, ◌≡◌, refl, true, false, not, Option, none, some, List, [], ◌∷◌, arith, all, is_some,
  contains, contains-retain, distinct, ◌↔◌, Option-cases, inl, inr,
}
use verified_concurrent.Checkers.Property.{all_hold}
use verified_concurrent.Checkers.Stack.{first_lost, check_no_duplicates, new_history}
use verified_concurrent.Checkers.Contents.{
  first_lost_iff, ascending, above-weaken, above-contains, check_no_duplicates-distinct,
}
use verified_concurrent.Checkers.Sorted.{
  LinkedListPropertyChecker, live_keys, check_no_lost_keys_of_list, check_no_duplicate_keys,
  first_unsorted, order_result, check_insert_order_preserved, check_all_keys,
}

first_unsorted-ascending :
    (i : ℕ) (xs : List ℕ) → is_some (first_unsorted i xs) ≡ not (ascending xs)
unfolding first_unsorted all
first_unsorted-ascending i [] = refl
first_unsorted-ascending i (x ∷ []) = refl
first_unsorted-ascending i (x ∷ y ∷ ys) =
    ground (arith, first_unsorted-ascending (i + 1) (y ∷ ys), above-weaken x y ys)

ascending-distinct : (xs : List ℕ) → ascending xs ≡ true → distinct xs ≡ true
unfolding distinct
ascending-distinct [] h = refl
ascending-distinct (x ∷ xs) h = ground (arith, ascending-distinct xs, above-contains x xs)

order_result-holds :
    (line : ℕ) (o : Option (List ℕ)) → (order_result line o).holds ≡ not (is_some o)
order_result-holds line none = refl
order_result-holds line (some ns) = refl

-- The same check as that of the elements of a stack.
check_no_duplicate_keys-distinct :
    (c : LinkedListPropertyChecker)
    → (check_no_duplicate_keys c).holds ≡ distinct c.list.reachable_keys
unfolding check_no_duplicate_keys check_no_duplicates
check_no_duplicate_keys-distinct c = check_no_duplicates-distinct (record {
  stack = record {
    pushed_elements = [];
    popped_elements = [];
    current_contents = c.list.reachable_keys;
    history = new_history;
  };
  dst_seed = none;
})

check_insert_order_preserved-ascending :
    (c : LinkedListPropertyChecker)
    → (check_insert_order_preserved c).holds ≡ ascending c.list.reachable_keys
unfolding check_insert_order_preserved
check_insert_order_preserved-ascending c = ground (
  arith,
  order_result-holds 86 (first_unsorted 0 c.list.reachable_keys),
  first_unsorted-ascending 0 c.list.reachable_keys,
)

first_lost_all_iff :
    (found expected : List ℕ)
    → (first_lost found [] expected ≡ none)
      ↔ ((k : ℕ) → contains k expected ≡ true → contains k found ≡ true)
unfolding contains
first_lost_all_iff found expected =
    let (to, from) = first_lost_iff found [] expected in
    (λ e k m. let p = to e k m in ground arith, λ h. from (λ k m. let p = h k m in ground arith))

check_no_lost_keys_of_list_iff :
    (c : LinkedListPropertyChecker)
    → ((check_no_lost_keys_of_list c).holds ≡ true)
      ↔ ((k : ℕ) → contains k (live_keys c.list) ≡ true → contains k c.list.reachable_keys ≡ true)
unfolding check_no_lost_keys_of_list
check_no_lost_keys_of_list_iff c =
    let (to, from) = first_lost_all_iff c.list.reachable_keys (live_keys c.list) in
    elim (Option-cases (first_lost c.list.reachable_keys [] (live_keys c.list))) [
      | inl e ↦ (λ h. to e, λ h. ground arith)
      | inr (x, e) ↦ (λ h. absurd (ground arith), λ h. let f = from h in absurd (ground arith))
    ]

-- All the checks of a linked list pass exactly where the keys that it reaches are in strictly
-- ascending order and have each key among them that was inserted and not removed.
pub check_all_keys_iff :
    (c : LinkedListPropertyChecker)
    → (all_hold (check_all_keys c) ≡ true) ↔ (
        (ascending c.list.reachable_keys ≡ true)
        × ((k : ℕ)
            → contains k c.list.inserted_keys ≡ true
            → contains k c.list.removed_keys ≡ false
            → contains k c.list.reachable_keys ≡ true))
unfolding all_hold all check_all_keys
check_all_keys_iff c =
    let (to, from) = check_no_lost_keys_of_list_iff c in
    let live = contains-retain (λ k. not (contains k c.list.removed_keys)) c.list.inserted_keys in
    let o = check_insert_order_preserved-ascending c in
    let d = check_no_duplicate_keys-distinct c in
    (
      λ h. (ground arith, λ k m r. to (ground arith) k (ground (arith, live k))),
      λ (a, h).
          let kept = from (λ k m. h k (ground (arith, live k)) (ground (arith, live k))) in
          ground (arith, ascending-distinct c.list.reachable_keys),
    )
