-- ===== src/Index/BPlusTree/LeafSplit.antt =====
-- The two halves of a leaf that was split (src/index/BPlusTree.cpp), before the new one has its place.
use my_db.Base.{
  ℕ, ◌<◌, ◌≡◌, refl, sym, ◌∙◌, true, false, some, arith, length, take, drop, length-take,
  length-drop, [], nat_eq, nat_eq_iff, Bool-cases, inl, inr,
}
use my_db.Index.BPlusTree.{BPlusNode, internal, leaf}
use my_db.Index.BPlusTree.Insertion.{key_at}
use my_db.Index.BPlusTree.Entries.{
  Ascending-take, Ascending-drop, Ascending-key_at, find_entry-take, find_entry-drop,
}
use my_db.Index.BPlusTree.Ranges.{Kids-map}
use my_db.Index.BPlusTree.Shape.{
  Shape, Content, Nodes, IsLeaf, IsInner, Kid, IsTree, IsWhole, leaf_entry-entry_of,
  leaf_entry-IsLeaf,
}
use my_db.Index.BPlusTree.Update.{update}

-- The halves of leaf `n`, the left one of `split` entries; the right one is node `new`.
abbrev pub left_half : ℕ → ℕ → BPlusNode → BPlusNode
left_half split new n = record n {
  keys = take split n.keys;
  values = take split n.values;
  size = split;
  next_leaf_idx = some new;
}

abbrev pub right_half : ℕ → ℕ → BPlusNode → BPlusNode
right_half split new n = record {
  type = leaf;
  is_root = false;
  page_id = new;
  parent_idx = n.parent_idx;
  size = length (drop split n.keys);
  keys = drop split n.keys;
  values = drop split n.values;
  child_indices = [];
  next_leaf_idx = n.next_leaf_idx;
}

module _ (lo hi split new : ℕ) (c : Content) (n : BPlusNode) (h : IsLeaf lo hi c n)
    (lt : split < length n.keys) where
  left_half-IsLeaf : IsLeaf lo (key_at n.keys split) c (left_half split new n)
  left_half-IsLeaf = record {
    size = omega (arith, length-take split n.keys);
    values = omega (arith, length-take split n.keys, length-take split n.values, h.values);
    ascending = Ascending-take split lo hi n.keys h.ascending lt;
    entry = λ j above below.
        let sized : split ≡ length (take split n.keys) = omega (arith, length-take split n.keys) in
        sym (leaf_entry-entry_of (left_half split new n) j sized)
        ∙ find_entry-take split lo hi j n.keys n.values h.ascending lt h.values below
        ∙ rw h.size at (
            leaf_entry-IsLeaf h j above
              (omega (arith, (Ascending-key_at split lo hi n.keys h.ascending lt).1)));
  }

  right_half-IsLeaf : IsLeaf (key_at n.keys split) hi c (right_half split new n)
  right_half-IsLeaf = record {
    size = refl;
    values = omega (arith, length-drop split n.keys, length-drop split n.values, h.values);
    ascending = Ascending-drop split lo hi n.keys h.ascending lt;
    entry = λ j above below.
        sym (leaf_entry-entry_of (right_half split new n) j refl)
        ∙ find_entry-drop split lo hi j n.keys n.values h.ascending lt h.values above
        ∙ rw h.size at (
            leaf_entry-IsLeaf h j
              (omega (arith, (Ascending-key_at split lo hi n.keys h.ascending lt).0)) below);
  }

module _ {g : Shape} {c : Content} {len r : ℕ} {ns : Nodes} (s : IsTree g c len r ns)
    (w : IsWhole g) (l split : ℕ) (live : g.live l ≡ true) (is : (ns l).type ≡ leaf)
    (pos : 0 < split) (lt : split < length (ns l).keys) where
  abbrev pub middle : ℕ
  middle = key_at (ns l).keys split

  abbrev pub split_shape : Shape
  split_shape = record g {
    live = update len true g.live;
    lo = update len middle g.lo;
    hi = update len (g.hi l) (update l middle g.hi);
    outer = update len (g.hi l) g.outer;
    height = update len (g.height l) g.height;
    parent = update len (g.parent l) g.parent;
  }

  abbrev pub split_nodes : Nodes
  split_nodes = update len (right_half split len (ns l)) (update l (left_half split len (ns l)) ns)

  old : IsLeaf (g.lo l) (g.hi l) c (ns l)
  old = s.leaves l live is

  pub between : (g.lo l < middle) × (middle < g.hi l)
  between =
      let (a, b) = Ascending-key_at split (g.lo l) (g.hi l) (ns l).keys old.ascending lt in
      (omega (arith, a), b)

  -- A node that was there is not the new one.
  pub not_new : (i : ℕ) → g.live i ≡ true → nat_eq len i ≡ false
  not_new i h = ground (arith, s.bound i h)

  -- What the left half keeps, every old node keeps.
  pub part-split :
      {A : Type 0} (part : BPlusNode → A) (i : ℕ)
      → g.live i ≡ true
      → part (left_half split len (ns l)) ≡ part (ns l)
      → part (split_nodes i) ≡ part (ns i)
  part-split part i h e = elim (Bool-cases (nat_eq l i)) [
    | inl same ↦ rw (not_new i h, same, ← (nat_eq_iff l i).0 same) e
    | inr away ↦ rw (not_new i h, away) refl
  ]

  pub type-split : (i : ℕ) → g.live i ≡ true → (split_nodes i).type ≡ (ns i).type
  type-split i h = part-split (λ x. x.type) i h refl

  pub live-split : (i : ℕ) → split_shape.live i ≡ true → nat_eq len i ≡ false → g.live i ≡ true
  live-split i h other = rw other at h

  pub leaves-split :
      (i : ℕ)
      → split_shape.live i ≡ true
      → (split_nodes i).type ≡ leaf
      → IsLeaf (split_shape.lo i) (split_shape.hi i) c (split_nodes i)
  leaves-split i h t = elim (Bool-cases (nat_eq len i)) [
    | inl new ↦ rw new (right_half-IsLeaf (g.lo l) (g.hi l) split len c (ns l) old lt)
    | inr other ↦ elim (Bool-cases (nat_eq l i)) [
      | inl here ↦
          rw (other, here, ← (nat_eq_iff l i).0 here)
            (left_half-IsLeaf (g.lo l) (g.hi l) split len c (ns l) old lt)
      | inr away ↦ rw (other, away) (s.leaves i (live-split i h other) (rw (other, away) at t))
    ]
  ]

  Kid-split : (i c a b : ℕ) → g.live i ≡ true → Kid g i c a b → Kid split_shape i c a b
  Kid-split i c a b h kid =
      let new = not_new c (s.attached-live c kid.attached) in
      record {
        attached = kid.attached;
        lo = rw new kid.lo;
        outer = rw new kid.outer;
        height = rw (new, not_new i h) kid.height;
        parent = rw new kid.parent;
      }

  pub inner-split :
      (i : ℕ)
      → split_shape.live i ≡ true
      → (split_nodes i).type ≡ internal
      → IsInner split_shape i (split_nodes i)
  inner-split i h t = elim (Bool-cases (nat_eq len i)) [
    | inl new ↦ absurd (ground (arith, new))
    | inr other ↦ elim (Bool-cases (nat_eq l i)) [
      | inl here ↦ absurd (ground (arith, other, here, is))
      | inr away ↦
          let n = s.inner i (live-split i h other) (rw (other, away) at t) in
          rw (other, away)
            (record {
              size = n.size;
              kids =
                  rw (other, away)
                    (Kids-map (λ d a b kid. Kid-split i d a b (live-split i h other) kid) n.kids);
            })
    ]
  ]
