-- ===== src/Index/BPlusTree/Growing.antt =====
-- The new root over the halves of a root that was split: `insertIntoParent` at the root
-- (src/index/BPlusTree.cpp).
use my_db.Base.{
  ℕ, suc, ◌<◌, ◌≡◌, ◌≢◌, refl, sym, ap, ◌∙◌, true, false, none, some, [], ◌∷◌, arith, length,
  nat_eq, nat_eq_iff, Bool-cases, inl, inr,
}
use my_db.Index.BPlusTree.{BPlusNode, internal, leaf}
use my_db.Index.BPlusTree.Ranges.{last, more, Kids-map}
use my_db.Index.BPlusTree.Shape.{
  Shape, Content, Nodes, top, IsLeaf, IsInner, Kid, IsTree, IsPending,
}
use my_db.Index.BPlusTree.Update.{update, update_self}

-- Node `i` as the root over `l` and `new`.
abbrev pub root_node : ℕ → ℕ → ℕ → ℕ → BPlusNode
root_node i l key new = record {
  type = internal;
  is_root = true;
  page_id = i;
  parent_idx = none;
  size = 1;
  keys = key ∷ [];
  values = [];
  child_indices = l ∷ new ∷ [];
  next_leaf_idx = none;
}

module _ {g : Shape} {c : Content} {len r : ℕ} {ns : Nodes} (s : IsTree g c len r ns)
    {l key new : ℕ} (w : IsPending g ns l key new) (flag : (ns l).is_root ≡ true) where
  abbrev pub grown_shape : Shape
  grown_shape = record {
    live = update len true g.live;
    attached = update len true (update new true g.attached);
    lo = update len 0 g.lo;
    hi = update len top g.hi;
    outer = update len top (update l key g.outer);
    height = update len (suc (g.height l)) g.height;
    parent = update new len (update l len g.parent);
  }

  abbrev pub grown_nodes : Nodes
  grown_nodes =
      update new (record (ns new) { parent_idx = some len })
        (update l (record (ns l) { is_root = false; parent_idx = some len })
          (update len (root_node len l key new) ns))

  pub is_r : l ≡ r
  is_r = s.root_only l (s.attached-live l w.left_attached) flag

  -- The two halves and the new root are three nodes.
  old_l : nat_eq len l ≡ false
  old_l = ground (arith, s.bound l (s.attached-live l w.left_attached))

  old_new : nat_eq len new ≡ false
  old_new = ground (arith, s.bound new w.right_live)

  pub new_l : nat_eq new l ≡ false
  new_l = ground (arith, nat_eq_iff new l, w.left_attached, w.right_attached)

  l_new : nat_eq l new ≡ false
  l_new = ground (arith, nat_eq_iff l new, w.left_attached, w.right_attached)

  pub here_len : nat_eq len len ≡ true
  here_len = (nat_eq_iff len len).1 refl

  root_lo_l : g.lo l ≡ 0
  root_lo_l = rw is_r s.root_lo

  outer_new : g.outer new ≡ top
  outer_new =
      w.outer new (λ e. ground (arith, nat_eq_iff new l, new_l)) ∙ w.right_hi ∙ rw is_r s.root_outer

  new_below : key < top
  new_below = rw (← outer_new, w.outer new (λ e. ground (arith, nat_eq_iff new l, new_l))) w.below

  pub not_len : (i : ℕ) → g.live i ≡ true → nat_eq len i ≡ false
  not_len i h = ground (arith, s.bound i h)

  pub part-grown :
      {A : Type 0} (part : BPlusNode → A) (i : ℕ)
      → g.live i ≡ true
      → part (record (ns l) { is_root = false; parent_idx = some len }) ≡ part (ns l)
      → part (record (ns new) { parent_idx = some len }) ≡ part (ns new)
      → part (grown_nodes i) ≡ part (ns i)
  part-grown part i h e d = elim (Bool-cases (nat_eq new i)) [
    | inl same ↦ rw (same, ← (nat_eq_iff new i).0 same) d
    | inr other ↦ elim (Bool-cases (nat_eq l i)) [
      | inl here ↦ rw (other, here, ← (nat_eq_iff l i).0 here) e
      | inr away ↦ rw (other, away, not_len i h) refl
    ]
  ]

  pub type-grown : (i : ℕ) → g.live i ≡ true → (grown_nodes i).type ≡ (ns i).type
  type-grown i h = part-grown (λ x. x.type) i h refl refl

  -- No node has the old root or the new half for a child.
  Kid-grown : (i d a b : ℕ) → g.live i ≡ true → Kid g i d a b → Kid grown_shape i d a b
  Kid-grown i d a b h kid =
      let live_d = s.attached-live d kid.attached in
      let old = not_len d live_d in
      let not_new : nat_eq new d ≡ false =
        ground (arith, nat_eq_iff new d, kid.attached, w.right_attached) in
      let not_left : nat_eq l d ≡ false =
        ground (arith, nat_eq_iff l d, is_r, kid.height, s.root_highest i h) in
      record {
        attached = rw (old, not_new) kid.attached;
        lo = rw old kid.lo;
        outer = rw (old, not_left) kid.outer;
        height = rw (old, not_len i h) kid.height;
        parent = rw (not_new, not_left) kid.parent;
      }

  pub live-grown : (i : ℕ) → grown_shape.live i ≡ true → nat_eq len i ≡ false → g.live i ≡ true
  live-grown i h other = rw other at h

  pub root-inner : (i : ℕ) → nat_eq len i ≡ true → (grown_nodes i).type ≢ leaf
  root-inner i here t =
      let at : len ≡ i = (nat_eq_iff len i).0 here in
      ground (
        arith,
        nat_eq_iff new i,
        nat_eq_iff new len,
        nat_eq_iff l i,
        nat_eq_iff l len,
        old_l,
        old_new,
        nat_eq_iff len new,
        nat_eq_iff len l,
      )

  module _ (i : ℕ) (h : grown_shape.live i ≡ true) (other : nat_eq len i ≡ false) where
    pub lo-grown : grown_shape.lo i ≡ g.lo i
    lo-grown = rw other refl

    pub hi-grown : grown_shape.hi i ≡ g.hi i
    hi-grown = rw other refl

    keys-grown : (grown_nodes i).keys ≡ (ns i).keys
    keys-grown = part-grown (λ x. x.keys) i (live-grown i h other) refl refl

    size-grown : (grown_nodes i).size ≡ (ns i).size
    size-grown = part-grown (λ x. x.size) i (live-grown i h other) refl refl

    values-grown : (grown_nodes i).values ≡ (ns i).values
    values-grown = part-grown (λ x. x.values) i (live-grown i h other) refl refl

    pub children-grown : (grown_nodes i).child_indices ≡ (ns i).child_indices
    children-grown = part-grown (λ x. x.child_indices) i (live-grown i h other) refl refl

    leaf-grown :
        IsLeaf (g.lo i) (g.hi i) c (ns i)
        → IsLeaf (grown_shape.lo i) (grown_shape.hi i) c (grown_nodes i)
    leaf-grown old = record {
      size = size-grown ∙ old.size ∙ ap length (sym keys-grown);
      values = ap length values-grown ∙ old.values ∙ ap length (sym keys-grown);
      ascending = rw (keys-grown, lo-grown, hi-grown) old.ascending;
      entry = λ j above below.
          rw (keys-grown, values-grown)
            (old.entry j (omega (arith, lo-grown, above)) (omega (arith, hi-grown, below)));
    }

    Inner-grown : IsInner g i (ns i) → IsInner grown_shape i (grown_nodes i)
    Inner-grown old = record {
      size = size-grown ∙ old.size ∙ ap length (sym keys-grown);
      kids =
          rw (keys-grown, children-grown, lo-grown, hi-grown)
            (Kids-map (λ d a b kid. Kid-grown i d a b (live-grown i h other) kid) old.kids);
    }

  pub leaves-grown :
      (i : ℕ)
      → grown_shape.live i ≡ true
      → (grown_nodes i).type ≡ leaf
      → IsLeaf (grown_shape.lo i) (grown_shape.hi i) c (grown_nodes i)
  leaves-grown i h t = elim (Bool-cases (nat_eq len i)) [
    | inl here ↦ absurd (root-inner i here t)
    | inr other ↦
        leaf-grown i h other
          (s.leaves i (live-grown i h other) (sym (type-grown i (live-grown i h other)) ∙ t))
  ]

  pub at_len : grown_nodes len ≡ root_node len l key new
  at_len = ground (
    arith,
    nat_eq_iff new len,
    nat_eq_iff l len,
    nat_eq_iff len len,
    old_l,
    old_new,
    nat_eq_iff len new,
    nat_eq_iff len l,
  )

  Inner-root : IsInner grown_shape len (root_node len l key new)
  Inner-root = record {
    size = refl;
    kids = rw here_len (
        more (omega (arith, w.above, w.left_hi, root_lo_l))
          (record {
            attached = rw (old_l, new_l) w.left_attached;
            lo = rw old_l root_lo_l;
            outer = rw old_l (update_self l key g.outer);
            height = rw (old_l, here_len) refl;
            parent = rw new_l (update_self l len g.parent);
          })
          (last new_below (record {
            attached = rw old_new (update_self new true g.attached);
            lo = rw old_new w.right_lo;
            outer = rw (old_new, l_new) outer_new;
            height = rw (old_new, here_len) (ap suc w.height);
            parent = update_self new len (update l len g.parent);
          })));
  }

  pub inner-grown :
      (i : ℕ)
      → grown_shape.live i ≡ true
      → (grown_nodes i).type ≡ internal
      → IsInner grown_shape i (grown_nodes i)
  inner-grown i h t = elim (Bool-cases (nat_eq len i)) [
    | inl here ↦ let at : len ≡ i = (nat_eq_iff len i).0 here in rw (← at, at_len) Inner-root
    | inr other ↦
        Inner-grown i h other
          (s.inner i (live-grown i h other) (sym (type-grown i (live-grown i h other)) ∙ t))
  ]
