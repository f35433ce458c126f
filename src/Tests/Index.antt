-- ===== src/Tests/Index.antt =====
-- The index at small inputs (src/index).
use my_db.Base.{
  ℕ, zero, suc, ◌+◌, ◌*◌, ◌<◌, ◌≡◌, ◌⊎◌, inr, refl, sym, ap, subst, Bool, Option, none, some, List,
  [], ◌∷◌, arith, length, member,
}
use my_db.Common.Rid.{Rid}
use my_db.Index.BPlusTree.{
  BPlusTree, leaf, node_at, new_tree, allocate_node, child_pos, descend, find_leaf, find_entry,
  search, scan_leaf, scan_from, range_scan,
}
use my_db.Index.BPlusTree.Building.{first_entry, insert_all, search-insert_all}
use my_db.Index.BPlusTree.Dangling.{insert_all-dangling}
use my_db.Index.BPlusTree.Inserting.{Inserted, insert-IsSound, with_new, is_none}
use my_db.Index.BPlusTree.LeafScan.{collect, within}
use my_db.Index.BPlusTree.Scanning.{range_scan-collect}
use my_db.Index.BPlusTree.Removal.{
  position, erase_at, remove_from_leaf, borrow_left, borrow_right, merge, rebalance,
  handle_underflow, shrink_root, remove,
}
use my_db.Index.BPlusTree.Searching.{find_leaf-end, search-IsSound}
use my_db.Index.BPlusTree.Shape.{Content, IsSound, empty, top}
use my_db.Index.BPlusTree.Insertion.{
  lower_bound, insert_at, with_entry, insert_into_leaf, with_child, set_parents, split_parts,
  split_internal, grow_root, split_leaf, insert_into_parent, split_leaf_and_insert, insert_first,
  insert,
}

program : Unit {0}
unfolding allocate_node child_pos descend find_leaf find_entry search scan_leaf scan_from range_scan
    lower_bound insert_at with_entry insert_into_leaf with_child set_parents split_parts
    split_internal grow_root split_leaf insert_into_parent split_leaf_and_insert insert_first insert
    position erase_at remove_from_leaf borrow_left borrow_right merge rebalance handle_underflow
    shrink_root remove
program = tt

abbrev at_slot : ℕ → Rid
at_slot n = record { page_id = 0; slot_num = n }

-- A vector that takes room for many elements at once, and one that doubles.
abbrev ample : ℕ → ℕ
ample n = 2 * n + 64

abbrev doubling : ℕ → ℕ
doubling zero = 1
doubling (suc n) = 2 * suc n

-- The tree that an insertion leaves, where it is defined.
abbrev after : BPlusTree → Option (Bool × BPlusTree) → BPlusTree
after t none = t
after t (some r) = r.1

abbrev fill : List ℕ → BPlusTree → BPlusTree
unfolding program
fill [] t = t
fill (k ∷ ks) t = fill ks (after t (insert k (at_slot k) t))

abbrev ten : BPlusTree
unfolding fill
ten = fill (5 ∷ 2 ∷ 8 ∷ 1 ∷ 9 ∷ 3 ∷ 7 ∷ 4 ∷ 6 ∷ 10 ∷ []) (new_tree ample 3)

search_test : search 7 ten ≡ some (at_slot 7)
unfolding program ten fill
search_test = refl

missing_test : search 11 ten ≡ none
unfolding program ten fill
missing_test = refl

scan_test : range_scan 3 6 ten ≡ at_slot 3 ∷ at_slot 4 ∷ at_slot 5 ∷ at_slot 6 ∷ []
unfolding program ten fill
scan_test = refl

-- A root with two leaves, of order 2.
abbrev two : BPlusTree
unfolding program
two = fill (5 ∷ 2 ∷ []) (new_tree ample 2)

abbrev two_entries : Content
unfolding with_new
two_entries = with_new 2 (at_slot 2) (with_new 5 (at_slot 5) (λ _. none))

one-Inserted : Inserted 5 (at_slot 5) (λ _. none) 2 (insert 5 (at_slot 5) (new_tree ample 2))
one-Inserted =
    insert-IsSound (λ _. none) (new_tree ample 2) 5 (at_slot 5) (empty refl (λ _. refl))
      (omega arith) (omega arith) (inr (omega arith))

abbrev one : BPlusTree
unfolding fill
one = fill (5 ∷ []) (new_tree ample 2)

one_tree-IsSound : IsSound (with_new 5 (at_slot 5) (λ _. none)) one
unfolding program one fill is_none
one_tree-IsSound =
    subst (IsSound (with_new 5 (at_slot 5) (λ _. none)))
      (ap (λ o. after one o) (sym one-Inserted.ends)) one-Inserted.sound

two-IsSound : IsSound two_entries two
unfolding program one two fill with_new two_entries is_none
two-IsSound =
    let h =
      insert-IsSound (with_new 5 (at_slot 5) (λ _. none)) one 2 (at_slot 2) one_tree-IsSound
        (omega arith) (omega arith) (inr (omega arith)) in
    subst (IsSound two_entries) (ap (λ o. after two o) (sym h.ends)) h.sound

find_leaf-end_example :
    ((two.root_idx ≡ none) × (find_leaf 3 two ≡ none))
    ⊎ ((i : ℕ) × (find_leaf 3 two ≡ some i)
        × ((node_at two i).type ≡ leaf)
        × (i < length two.nodes))
find_leaf-end_example = find_leaf-end two_entries two 3 two-IsSound (omega arith)

search-IsSound_example : search 2 two ≡ two_entries 2
search-IsSound_example = search-IsSound two_entries two 2 two-IsSound (omega arith)

insert-IsSound_example : Inserted 7 (at_slot 7) two_entries 2 (insert 7 (at_slot 7) two)
unfolding program two fill
insert-IsSound_example =
    insert-IsSound two_entries two 7 (at_slot 7) two-IsSound (omega arith) (omega arith)
      (inr (omega arith))

abbrev four_keys : List (ℕ × Rid)
four_keys = (5, at_slot 5) ∷ (2, at_slot 2) ∷ (8, at_slot 8) ∷ (2, at_slot 1) ∷ []

search-insert_all_example :
    (t : BPlusTree) × (insert_all four_keys (some (new_tree ample 3)) ≡ some t)
    × (search 2 t ≡ first_entry 2 four_keys)
unfolding program
search-insert_all_example =
    search-insert_all ample 3 2 four_keys (omega arith)
      (omega arith, (omega arith, (omega arith, (omega arith, tt))))
      (inr (omega arith), (inr (omega arith), (inr (omega arith), (inr (omega arith), tt))))
      (omega arith)

-- A doubling vector, as it is in common libraries, has room for one node after the first.
abbrev three_keys : List (ℕ × Rid)
three_keys = (5, at_slot 5) ∷ (2, at_slot 2) ∷ (8, at_slot 8) ∷ []

insert_all-dangling_example : insert_all three_keys (some (new_tree doubling 3)) ≡ none
unfolding member
insert_all-dangling_example =
    insert_all-dangling doubling 3 three_keys refl (omega arith) (omega arith)
      (omega arith, (omega arith, (omega arith, tt))) (refl, (refl, (refl, tt)))

range_scan-collect_example : range_scan 1 4 two ≡ collect (within 1 4 two_entries) 0 top
range_scan-collect_example = range_scan-collect two_entries two 1 4 two-IsSound (omega arith)

empty_all : List ℕ → Option BPlusTree → Option BPlusTree
unfolding program
empty_all [] t = t
empty_all (k ∷ ks) none = none
empty_all (k ∷ ks) (some t) = empty_all ks (elim (remove k t) [ none ↦ none | some r ↦ some r.1 ])

scan_all : Option BPlusTree → List Rid
unfolding program
scan_all none = []
scan_all (some t) = range_scan 0 20 t

remove_test :
    scan_all (empty_all (4 ∷ 9 ∷ 6 ∷ []) (some ten))
    ≡ at_slot 1 ∷ at_slot 2 ∷ at_slot 3 ∷ at_slot 5 ∷ at_slot 7 ∷ at_slot 8 ∷ at_slot 10 ∷ []
unfolding program ten fill empty_all scan_all
remove_test = refl

-- An internal node that is left with one child is not merged, and the next merge below it reads
-- behind its children.
remove_behind_test : empty_all (1 ∷ 2 ∷ 3 ∷ 4 ∷ []) (some ten) ≡ none
unfolding program ten fill empty_all
remove_behind_test = refl
