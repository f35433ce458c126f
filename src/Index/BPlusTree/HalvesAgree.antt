-- ===== src/Index/BPlusTree/HalvesAgree.antt =====
-- The node vectors that src/index/BPlusTree.cpp builds when it splits a leaf or an internal node.
use my_db.Base.{
  ℕ, suc, ◌/◌, ◌<◌, ◌≡◌, refl, ap, ◌∙◌, true, false, Option, List, arith, length, member, drop,
  nat_eq, Bool-cases, inl, inr,
}
use my_db.Index.BPlusTree.{
  BPlusNode, BPlusTree, internal, leaf, node_at, put_node, new_node, allocate_node,
}
use my_db.Index.BPlusTree.Insertion.{with_child, set_parents, split_parts}
use my_db.Index.BPlusTree.Shape.{Nodes}
use my_db.Index.BPlusTree.Update.{
  update, update_self, node_at-allocate, length-put_node, length-allocate,
}
use my_db.Index.BPlusTree.LeafSplit.{left_half, right_half}
use my_db.Index.BPlusTree.InnerSplit.{lower_half, upper_half, below_new}
use my_db.Index.BPlusTree.Agreement.{
  put-agrees, length-set_parents, node_at-set_parents, update_past, put-allocated,
}

abbrev pub as_right : ℕ → BPlusNode → BPlusNode → BPlusNode
as_right split full n = record n {
  keys = drop split full.keys;
  values = drop split full.values;
  size = length (drop split full.keys);
  next_leaf_idx = full.next_leaf_idx;
  parent_idx = full.parent_idx;
}

-- The tree in which a leaf has its two halves, before the new one has its place.
abbrev pub leaf_halves : ℕ → ℕ → BPlusNode → BPlusTree → BPlusTree
leaf_halves i split full t =
    put_node (length t.nodes)
      (as_right split full (node_at (allocate_node leaf t).1 (length t.nodes)))
      (put_node i (left_half split (length t.nodes) full) (allocate_node leaf t).1)

pub node_at-leaf_halves :
    (i split : ℕ) (full : BPlusNode) (t : BPlusTree)
    → i < length t.nodes
    → (x : ℕ)
    → node_at (leaf_halves i split full t) x
      ≡ update
          (length t.nodes)
          (right_half split (length t.nodes) full)
          (update i (left_half split (length t.nodes) full) (node_at t))
          x
node_at-leaf_halves i split full t lt x =
    let len = length t.nodes in
    let t₁ = (allocate_node leaf t).1 in
    let size : length t₁.nodes ≡ suc len = length-allocate leaf t in
    let new = new_node leaf len in
    let at₁ : (y : ℕ) → node_at t₁ y ≡ update len new (node_at t) y = node_at-allocate leaf t in
    let left = left_half split len full in
    let here : node_at t₁ len ≡ new = at₁ len ∙ update_self len new (node_at t) in
    let at₂ : (y : ℕ)
        → node_at (put_node i left t₁) y ≡ update i left (update len new (node_at t)) y =
      put-agrees i left left t₁ (update len new (node_at t)) (omega (arith, size, lt)) refl at₁ in
    put-agrees len (as_right split full (node_at t₁ len)) (right_half split len full)
      (put_node i left t₁) (update i left (update len new (node_at t)))
      (omega (arith, length-put_node i left t₁, size)) (ap (as_right split full) here) at₂ x
    ∙ update_past len i (right_half split len full) left new (node_at t) x

as_upper : ℕ → BPlusNode → BPlusNode → BPlusNode
as_upper mid full n = record n {
  keys = drop (suc mid) full.keys;
  child_indices = drop (suc mid) full.child_indices;
  size = length (drop (suc mid) full.keys);
}

with_parent : Option ℕ → BPlusNode → BPlusNode
with_parent q n = record n { parent_idx = q }

below_new-ne :
    (q : ℕ) (cs : List ℕ) (ns : Nodes) (x : ℕ) → member x cs ≡ false → below_new q cs ns x ≡ ns x
below_new-ne q cs ns x out = rw out refl

beyond-member : (n : ℕ) (xs : List ℕ) → ((x : ℕ) → member x xs ≡ true → x < n) → member n xs ≡ false
beyond-member n xs below = elim (Bool-cases (member n xs)) [
  | inl m ↦ absurd (omega (arith, below n m))
  | inr out ↦ out
]

below_fresh :
    (len p : ℕ) (upper left fresh : BPlusNode) (moved : List ℕ) (ns : Nodes) (x : ℕ)
    → update len upper (update p left (below_new len moved (update len fresh ns))) x
      ≡ update len upper (update p left (below_new len moved ns)) x
below_fresh len p upper left fresh moved ns x = elim (Bool-cases (nat_eq len x)) [
  | inl same ↦ rw same refl
  | inr other ↦ rw other refl
]

-- The two halves of an internal node.
pub node_at-split_parts :
    (p key right : ℕ) (t : BPlusTree)
    → let full = with_child key right (node_at t p) in
      let mid = full.size / 2 in
      let moved = drop (suc mid) full.child_indices in
      p < length t.nodes
      → ((x : ℕ) → member x moved ≡ true → x < length t.nodes)
      → member p moved ≡ false
      → (x : ℕ)
      → node_at (split_parts p key right t).2 x
        ≡ update
            (length t.nodes)
            (upper_half mid (length t.nodes) full)
            (update p (lower_half mid full) (below_new (length t.nodes) moved (node_at t)))
            x
unfolding split_parts as_upper with_parent
node_at-split_parts p key right t lt below out x =
    let len = length t.nodes in
    let full = with_child key right (node_at t p) in
    let mid = full.size / 2 in
    let moved = drop (suc mid) full.child_indices in
    let t₁ = (allocate_node internal t).1 in
    let new = as_upper mid full (node_at t₁ len) in
    let t₂ = put_node len new t₁ in
    let size₂ : length t₂.nodes ≡ suc len =
      length-put_node len new t₁ ∙ length-allocate internal t in
    let fresh = as_upper mid full (new_node internal len) in
    let at₂ : (y : ℕ) → node_at t₂ y ≡ update len fresh (node_at t) y =
      put-allocated internal (as_upper mid full) t in
    let t₃ = set_parents len moved t₂ in
    let size₃ : length t₃.nodes ≡ suc len = length-set_parents len moved t₂ ∙ size₂ in
    let ns₃ = below_new len moved (update len fresh (node_at t)) in
    let at₃ : (y : ℕ) → node_at t₃ y ≡ ns₃ y =
      node_at-set_parents len moved t₂ (update len fresh (node_at t))
        (λ y m. omega (arith, size₂, below y m)) at₂ in
    let left = lower_half mid full in
    let t₄ = put_node p left t₃ in
    let size₄ : length t₄.nodes ≡ suc len = length-put_node p left t₃ ∙ size₃ in
    let at₄ : (y : ℕ) → node_at t₄ y ≡ update p left ns₃ y =
      put-agrees p left left t₃ ns₃ (omega (arith, size₃, lt)) refl at₃ in
    let upper = upper_half mid len full in
    let new_out : member len moved ≡ false = beyond-member len moved below in
    let here : node_at t₃ len ≡ fresh =
      at₃ len
      ∙ below_new-ne len moved (update len fresh (node_at t)) len new_out
      ∙ update_self len fresh (node_at t) in
    put-agrees len (with_parent full.parent_idx (node_at t₃ len)) upper t₄ (update p left ns₃)
      (omega (arith, size₄)) (ap (with_parent full.parent_idx) here) at₄ x
    ∙ below_fresh len p upper left fresh moved (node_at t) x
