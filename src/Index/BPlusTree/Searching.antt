-- ===== src/Index/BPlusTree/Searching.antt =====
-- `findLeaf` and `search` of src/index/BPlusTree.cpp on a sound tree.
use my_db.Base.{
  ℕ, zero, suc, ◌≤◌, ◌<◌, ◌≡◌, refl, sym, true, ◌⊎◌, inl, inr, none, some, arith, length,
}
use my_db.Index.BPlusTree.{
  BPlusTree, BNodeType, internal, leaf, child_pos, child_at, node_at, descend, find_leaf, search,
}
use my_db.Index.BPlusTree.Ranges.{child_pos-Kids}
use my_db.Index.BPlusTree.Shape.{
  Shape, Content, top, Kid, IsTree, IsWhole, IsSound, empty, tree, leaf_entry-IsLeaf,
}

-- The leaf that has a key in its range.
pub record LeafOf (g : Shape) (t : BPlusTree) (key i : ℕ) : Type 0 where
  pub live : g.live i ≡ true
  pub type : (node_at t i).type ≡ leaf
  pub above : g.lo i ≤ key
  pub below : key < g.hi i

type-cases : (b : BNodeType) → (b ≡ leaf) ⊎ (b ≡ internal)
type-cases leaf = inl refl
type-cases internal = inr refl

module _ {g : Shape} {c : Content} (t : BPlusTree) {r : ℕ}
    (s : IsTree g c (length t.nodes) r (node_at t)) (w : IsWhole g) where
  -- Where the search goes on from an internal node.
  next-Kid :
      (key i : ℕ)
      → g.live i ≡ true
      → (node_at t i).type ≡ internal
      → g.lo i ≤ key
      → key < g.hi i
      → (a b : ℕ) × Kid g i
          (child_at (node_at t i) (child_pos (node_at t i).size key (node_at t i).keys))
          a
          b
        × (a ≤ key)
        × (key < b)
  next-Kid key i live is above below =
      let n = s.inner i live is in
      let (d, a, b, at, kid, l, u) = child_pos-Kids key n.kids above below in
      (a, b, rw (n.size, at, child_at) kid, l, u)

  -- The leaf that has a key in its range.
  descend-LeafOf :
      (fuel key i : ℕ)
      → g.height i ≤ fuel
      → g.live i ≡ true
      → g.lo i ≤ key
      → key < g.hi i
      → LeafOf g t key (descend fuel key t i)
  unfolding descend
  descend-LeafOf zero key i h live above below = elim (type-cases (node_at t i).type) [
    | inl is ↦ record { live = live; type = is; above = above; below = below }
    | inr is ↦
        let (a, b, kid, l, u) = next-Kid key i live is above below in
        absurd (omega (arith, kid.height))
  ]
  descend-LeafOf (suc fuel) key i h live above below = elim (type-cases (node_at t i).type) [
    | inl is ↦ rw (is, descend) (record { live = live; type = is; above = above; below = below })
    | inr is ↦
        let (a, b, kid, l, u) = next-Kid key i live is above below in
        let d = child_at (node_at t i) (child_pos (node_at t i).size key (node_at t i).keys) in
        rw (is, descend)
          (descend-LeafOf fuel key d (omega (arith, kid.height)) (s.attached-live d kid.attached)
            (omega (arith, kid.lo)) (omega (arith, kid.outer, w.outer d)))
  ]

  pub find_leaf-LeafOf :
      (key : ℕ)
      → t.root_idx ≡ some r
      → key < top
      → (i : ℕ) × (find_leaf key t ≡ some i) × LeafOf g t key i
  unfolding find_leaf
  find_leaf-LeafOf key root lt = (
    descend (length t.nodes) key t r,
    simp (root, find_leaf),
    descend-LeafOf (length t.nodes) key r (omega (arith, s.root_height))
        (s.attached-live r s.root_attached) (omega (arith, s.root_lo))
        (omega (arith, s.root_outer, w.outer r)),
  )

-- In a sound tree the descent for a key below 2 ^ 32 ends, within as many steps as there are nodes,
-- at a leaf; there is no descent only where there is no root.
pub find_leaf-end :
    (c : Content) (t : BPlusTree) (key : ℕ)
    → IsSound c t
    → key < top
    → ((t.root_idx ≡ none) × (find_leaf key t ≡ none))
      ⊎ ((i : ℕ) × (find_leaf key t ≡ some i) × ((node_at t i).type ≡ leaf) × (i < length t.nodes))
unfolding find_leaf
find_leaf-end c t key (empty none_yet nothing) lt = inl (none_yet, simp (none_yet, find_leaf))
find_leaf-end c t key (tree g r root s w) lt =
    let (i, found, at) = find_leaf-LeafOf t s w key root lt in
    inr (i, found, at.type, s.bound i at.live)

-- Searching a sound tree for a key below 2 ^ 32 is looking the key up among the tree's entries.
pub search-IsSound :
    (c : Content) (t : BPlusTree) (key : ℕ) → IsSound c t → key < top → search key t ≡ c key
unfolding search find_leaf
search-IsSound c t key (empty none_yet nothing) lt = rw (none_yet, search) (sym (nothing key))
search-IsSound c t key (tree g r root s w) lt =
    let (i, found, at) = find_leaf-LeafOf t s w key root lt in
    rw (found, search) (leaf_entry-IsLeaf (s.leaves i at.live at.type) key at.above at.below)
