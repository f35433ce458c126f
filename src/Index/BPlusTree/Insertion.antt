-- ===== src/Index/BPlusTree/Insertion.antt =====
-- `insert` of src/index/BPlusTree.cpp, with the splits of leaves and internal nodes. A split holds a
-- reference to its node across `allocateNode` and uses it afterwards: where the vector is full, adding
-- the new node moves the nodes, the reference is dangling, and the result is `none`.
use my_db.Base.{
  ℕ, zero, suc, ◌+◌, ◌/◌, Bool, true, false, Option, none, some, List, [], ◌∷◌, length, get_elem?,
  take, drop, ltb, if◌then◌else◌,
}
use my_db.Common.Rid.{Rid}
use my_db.Index.BPlusTree.{
  BPlusNode, BPlusTree, internal, leaf, node_at, put_node, allocate_node, find_leaf, leaf_entry,
  max_leaf_keys, max_internal_keys, has_capacity,
}

-- An index that a sound tree has.
abbrev pub or_zero : Option ℕ → ℕ
or_zero none = 0
or_zero (some i) = i

abbrev pub key_at : List ℕ → ℕ → ℕ
key_at ks i = or_zero (get_elem? ks i)

-- `std::lower_bound` on sorted keys: the position of the first that is not below the key.
unfoldable pub lower_bound : ℕ → List ℕ → ℕ
lower_bound key [] = 0
lower_bound key (k ∷ ks) = let rest = lower_bound key ks in if ltb k key then suc rest else 0

-- `vector::insert` before a position.
unfoldable pub insert_at {ℓ} : {A : Type ℓ} → ℕ → A → List A → List A
insert_at zero a xs = a ∷ xs
insert_at (suc i) a [] = a ∷ []
insert_at (suc i) a (x ∷ xs) = x ∷ insert_at i a xs

-- The leaf with one entry more.
unfoldable pub with_entry : ℕ → Rid → BPlusNode → BPlusNode
unfolding lower_bound insert_at
with_entry key value n =
    let p = lower_bound key n.keys in
    record n {
      keys = insert_at p key n.keys;
      values = insert_at p value n.values;
      size = n.size + 1;
    }

unfoldable pub insert_into_leaf : ℕ → ℕ → Rid → BPlusTree → BPlusTree
unfolding with_entry
insert_into_leaf i key value t = put_node i (with_entry key value (node_at t i)) t

-- An internal node with one key more and a child behind it.
unfoldable pub with_child : ℕ → ℕ → BPlusNode → BPlusNode
unfolding lower_bound insert_at
with_child key right n =
    let p = lower_bound key n.keys in
    record n {
      keys = insert_at p key n.keys;
      child_indices = insert_at (suc p) right n.child_indices;
      size = n.size + 1;
    }

abbrev pub set_parent : ℕ → ℕ → BPlusTree → BPlusTree
set_parent p i t = put_node i (record (node_at t i) { parent_idx = some p }) t

-- The loop over the children that a split has moved.
unfoldable pub set_parents : ℕ → List ℕ → BPlusTree → BPlusTree
set_parents p [] t = t
set_parents p (c ∷ cs) t = set_parents p cs (set_parent p c t)

-- `splitInternal` up to its last call, where its reference stays good: the key that goes up, the new
-- node, and the tree.
unfoldable pub split_parts : ℕ → ℕ → ℕ → BPlusTree → ℕ × ℕ × BPlusTree
unfolding with_child set_parents allocate_node
split_parts i key right t =
    let full = with_child key right (node_at t i) in
    let mid = full.size / 2 in
    let promoted = key_at full.keys mid in
    let (new_idx, t₁) = allocate_node internal t in
    let moved = drop (suc mid) full.child_indices in
    let new = record (node_at t₁ new_idx) {
      keys = drop (suc mid) full.keys;
      child_indices = moved;
      size = length (drop (suc mid) full.keys);
    } in
    let t₂ = set_parents new_idx moved (put_node new_idx new t₁) in
    let left = record full {
      keys = take mid full.keys;
      child_indices = take (suc mid) full.child_indices;
      size = mid;
    } in
    let t₃ =
      put_node new_idx (record (node_at t₂ new_idx) { parent_idx = full.parent_idx })
        (put_node i left t₂) in
    (promoted, new_idx, t₃)

-- `none` is the use of a dangling reference.
unfoldable pub split_internal : ℕ → ℕ → ℕ → BPlusTree → Option (ℕ × ℕ × BPlusTree)
unfolding split_parts
split_internal i key right t = if has_capacity t then some (split_parts i key right t) else none

-- The new root over the two halves of the old one.
unfoldable pub grow_root : ℕ → ℕ → ℕ → BPlusTree → BPlusTree
unfolding allocate_node
grow_root left key right t =
    let (r, t₁) = allocate_node internal t in
    let root = record (node_at t₁ r) {
      is_root = true;
      keys = key ∷ [];
      child_indices = left ∷ right ∷ [];
      size = 1;
    } in
    let t₂ = put_node r root t₁ in
    let t₃ = put_node left (record (node_at t₂ left) { is_root = false; parent_idx = some r }) t₂ in
    record (set_parent r right t₃) { root_idx = some r }

-- The calls go up the tree; the number of nodes is enough fuel.
unfoldable pub insert_into_parent : ℕ → ℕ → ℕ → ℕ → BPlusTree → Option BPlusTree
unfolding grow_root split_internal with_child
insert_into_parent zero left key right t = none
insert_into_parent (suc fuel) left key right t = elim ((node_at t left).is_root) [
  | true ↦ some (grow_root left key right t)
  | false ↦
      let p = or_zero (node_at t left).parent_idx in
      elim (ltb (node_at t p).size (max_internal_keys t)) [
        | true ↦ some (set_parent p right (put_node p (with_child key right (node_at t p)) t))
        | false ↦ elim (split_internal p key right (set_parent p right t)) [
          | none ↦ none
          | some (promoted, new_idx, t') ↦ insert_into_parent fuel p promoted new_idx t'
        ]
      ]
]

-- `splitLeafAndInsert` up to its last call, where its reference stays good.
unfoldable pub split_leaf : ℕ → BPlusNode → BPlusTree → ℕ × ℕ × BPlusTree
unfolding allocate_node
split_leaf i full t =
    let (new_idx, t₁) = allocate_node leaf t in
    let split = (full.size + 1) / 2 in
    let right = record (node_at t₁ new_idx) {
      keys = drop split full.keys;
      values = drop split full.values;
      size = length (drop split full.keys);
      next_leaf_idx = full.next_leaf_idx;
      parent_idx = full.parent_idx;
    } in
    let left = record full {
      keys = take split full.keys;
      values = take split full.values;
      size = split;
      next_leaf_idx = some new_idx;
    } in
    (key_at right.keys 0, new_idx, put_node new_idx right (put_node i left t₁))

unfoldable pub split_leaf_and_insert : ℕ → ℕ → Rid → BPlusTree → Option BPlusTree
unfolding with_entry split_leaf insert_into_parent
split_leaf_and_insert i key value t =
    let (promoted, new_idx, t') = split_leaf i (with_entry key value (node_at t i)) t in
    let done = insert_into_parent (length t.nodes + 1) i promoted new_idx t' in
    if has_capacity t then done else none

-- The first entry, in a new root.
unfoldable pub insert_first : ℕ → Rid → BPlusTree → BPlusTree
unfolding allocate_node
insert_first key value t =
    let (r, t₁) = allocate_node leaf t in
    let root = record (node_at t₁ r) {
      is_root = true;
      keys = key ∷ [];
      values = value ∷ [];
      size = 1;
    } in
    record (put_node r root t₁) { root_idx = some r; entry_count = t.entry_count + 1 }

-- `false` where the key is there already; `none` is the use of a dangling reference.
unfoldable pub insert : ℕ → Rid → BPlusTree → Option (Bool × BPlusTree)
unfolding insert_first insert_into_leaf split_leaf_and_insert
insert key value t = elim (find_leaf key t) [
  | none ↦ some (true, insert_first key value t)
  | some i ↦ elim (leaf_entry key (node_at t i)) [
    | some _ ↦ some (false, t)
    | none ↦
        let count = t.entry_count + 1 in
        if ltb (node_at t i).size (max_leaf_keys t)
        then some (true, record (insert_into_leaf i key value t) { entry_count = count })
        else elim (split_leaf_and_insert i key value t) [
          | none ↦ none
          | some t' ↦ some (true, record t' { entry_count = count })
        ]
  ]
]
