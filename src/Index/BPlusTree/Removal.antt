-- ===== src/Index/BPlusTree/Removal.antt =====
-- `remove` of src/index/BPlusTree.cpp. A read behind the end of a vector ends the model's call with
-- `none`.
use my_db.Base.{
  ℕ, zero, suc, ◌+◌, ◌-◌, ◌/◌, Bool, true, false, ◌&&◌, not, Option, none, some, List, [], ◌∷◌,
  ◌++◌, length, get_elem?, set, take, nat_eq, ltb, if◌then◌else◌,
}
use my_db.Index.BPlusTree.{
  BPlusNode, BPlusTree, internal, leaf, node_at, put_node, find_leaf, min_leaf_keys,
}
use my_db.Index.BPlusTree.Insertion.{or_zero, key_at}

abbrev pub min_internal_keys : BPlusTree → ℕ
min_internal_keys t = (t.order + 1) / 2 - 1

-- `std::find`: the position of a number.
unfoldable pub position : ℕ → List ℕ → Option ℕ
position x [] = none
position x (y ∷ ys) =
    let rest = position x ys in
    if nat_eq y x then some 0 else elim rest [ none ↦ none | some i ↦ some (suc i) ]

-- `vector::erase` at a position.
unfoldable pub erase_at {ℓ} : {A : Type ℓ} → ℕ → List A → List A
erase_at i [] = []
erase_at zero (x ∷ xs) = xs
erase_at (suc i) (x ∷ xs) = x ∷ erase_at i xs

-- The leaf without the entry at a position.
abbrev pub without_entry : ℕ → BPlusNode → BPlusNode
without_entry p n = record n {
  keys = erase_at p n.keys;
  values = erase_at p n.values;
  size = n.size - 1;
}

-- `none` where the key is not there.
unfoldable pub remove_from_leaf : ℕ → ℕ → BPlusTree → Option BPlusTree
unfolding position erase_at
remove_from_leaf i key t = elim (position key (node_at t i).keys) [
  | none ↦ none
  | some p ↦ some (put_node i (without_entry p (node_at t i)) t)
]

-- Without the last element.
abbrev pub pop_back {ℓ} : {A : Type ℓ} → List A → List A
pop_back xs = take (length xs - 1) xs

-- The last or first entry of one leaf moves to the leaf behind or before it, and the key between
-- them in the parent is set.
unfoldable pub borrow_left : ℕ → ℕ → ℕ → ℕ → BPlusTree → Option BPlusTree
unfolding erase_at
borrow_left i left p pos t =
    let l = node_at t left in
    let n = node_at t i in
    let parent = node_at t p in
    elim (get_elem? l.values (length l.values - 1)) [
      | none ↦ none
      | some value ↦
          let key = key_at l.keys (length l.keys - 1) in
          let t₁ =
            put_node i
              (record n { keys = key ∷ n.keys; values = value ∷ n.values; size = n.size + 1 }) t in
          let t₂ =
            put_node left
              (record l { keys = pop_back l.keys; values = pop_back l.values; size = l.size - 1 })
              t₁ in
          some (put_node p (record parent { keys = set parent.keys (pos - 1) key }) t₂)
    ]

unfoldable pub borrow_right : ℕ → ℕ → ℕ → ℕ → BPlusTree → Option BPlusTree
unfolding erase_at
borrow_right i right p pos t =
    let r = node_at t right in
    let n = node_at t i in
    let parent = node_at t p in
    elim (get_elem? r.values 0) [
      | none ↦ none
      | some value ↦
          let key = key_at r.keys 0 in
          let rest = erase_at 0 r.keys in
          let t₁ =
            put_node i
              (record n {
                keys = n.keys ++ key ∷ [];
                values = n.values ++ value ∷ [];
                size = n.size + 1;
              })
              t in
          let t₂ =
            put_node right
              (record r { keys = rest; values = erase_at 0 r.values; size = r.size - 1 }) t₁ in
          some (put_node p (record parent { keys = set parent.keys pos (key_at rest 0) }) t₂)
    ]

-- The entries of leaf `from` go behind those of leaf `into`, and the parent loses the key at `pos`
-- and the child behind it.
unfoldable pub merge : ℕ → ℕ → ℕ → ℕ → BPlusTree → BPlusTree
unfolding erase_at
merge into from p pos t =
    let n = node_at t into in
    let other = node_at t from in
    let parent = node_at t p in
    let t₁ =
      put_node into
        (record n {
          keys = n.keys ++ take other.size other.keys;
          values = n.values ++ take other.size other.values;
          size = n.size + other.size;
          next_leaf_idx = other.next_leaf_idx;
        })
        t in
    put_node p
      (record parent {
        keys = erase_at pos parent.keys;
        child_indices = erase_at (suc pos) parent.child_indices;
        size = parent.size - 1;
      })
      t₁

-- A leaf at position `pos` below its parent borrows from a neighbour with enough entries, or is
-- merged with one; the flag says that the parent has lost a child.
unfoldable pub rebalance : ℕ → ℕ → ℕ → BPlusTree → Option (BPlusTree × Bool)
unfolding borrow_left borrow_right merge
rebalance i p pos t =
    let children = (node_at t p).child_indices in
    let left = get_elem? children (pos - 1) in
    let right = get_elem? children (suc pos) in
    let can_lend =
      λ (o : Option ℕ). ltb (min_leaf_keys t) (elim o [ none ↦ 0 | some s ↦ (node_at t s).size ]) in
    let merge_it : Option (BPlusTree × Bool) =
      if ltb 0 pos
      then elim left [ none ↦ none | some l ↦ some (merge l i p (pos - 1) t, true) ]
      else elim right [ none ↦ none | some r ↦ some (merge i r p pos t, true) ] in
    let from_right : Option (BPlusTree × Bool) =
      if can_lend right
      then elim right [
        | none ↦ none
        | some r ↦ elim (borrow_right i r p pos t) [ none ↦ none | some t' ↦ some (t', false) ]
      ]
      else merge_it in
    if ltb 0 pos && can_lend left
    then elim left [
      | none ↦ none
      | some l ↦ elim (borrow_left i l p pos t) [ none ↦ none | some t' ↦ some (t', false) ]
    ]
    else from_right

-- The calls go up the tree; the number of nodes is enough fuel. An internal node is left as it is.
unfoldable pub handle_underflow : ℕ → ℕ → BPlusTree → Option BPlusTree
unfolding rebalance position
handle_underflow zero i t = some t
handle_underflow (suc fuel) i t =
    let n = node_at t i in
    let p = or_zero n.parent_idx in
    if n.is_root then some t else elim (position i (node_at t p).child_indices) [
      | none ↦ some t
      | some pos ↦ elim (n.type) [
        | internal ↦ some t
        | leaf ↦ elim (rebalance i p pos t) [
          | none ↦ none
          | some (t', merged) ↦
              let parent = node_at t' p in
              let up = handle_underflow fuel p t' in
              if merged && (not parent.is_root) && ltb parent.size (min_internal_keys t')
              then up
              else some t'
        ]
      ]
    ]

-- A root without keys: its only child becomes the root; a leaf is dropped.
unfoldable pub shrink_root : BPlusTree → Option BPlusTree
shrink_root t = elim (t.root_idx) [
  | none ↦ some t
  | some r ↦
      let root = node_at t r in
      if nat_eq root.size 0
      then elim (root.type) [
        | leaf ↦ some (record t { root_idx = none })
        | internal ↦ elim (get_elem? root.child_indices 0) [
          | none ↦ none
          | some c ↦
              let child = node_at t c in
              let t' = record (put_node c (record child { is_root = true; parent_idx = none }) t) {
                root_idx = some c;
              } in
              elim (child.type) [
                | internal ↦ some t'
                | leaf ↦
                    if nat_eq child.size 0 then some (record t' { root_idx = none }) else some t'
              ]
        ]
      ]
      else some t
]

unfoldable pub remove : ℕ → BPlusTree → Option (Bool × BPlusTree)
unfolding remove_from_leaf handle_underflow shrink_root
remove key t = elim (find_leaf key t) [
  | none ↦ some (false, t)
  | some i ↦ elim (remove_from_leaf i key t) [
    | none ↦ some (false, t)
    | some t' ↦
        let t₁ = record t' { entry_count = t'.entry_count - 1 } in
        let n = node_at t₁ i in
        let balanced =
          if not n.is_root && ltb n.size (min_leaf_keys t₁)
          then handle_underflow (length t₁.nodes) i t₁
          else some t₁ in
        elim balanced [
          | none ↦ none
          | some t₂ ↦ elim (shrink_root t₂) [ none ↦ none | some t₃ ↦ some (true, t₃) ]
        ]
  ]
]
