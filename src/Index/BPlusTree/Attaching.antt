-- ===== src/Index/BPlusTree/Attaching.antt =====
-- Giving the new half of a split node its place below the parent of the other half: the first case of
-- `insertIntoParent` (src/index/BPlusTree.cpp), whether the parent has room or not.
use my_db.Base.{
  ℕ, suc, ◌≡◌, ◌≢◌, refl, ap, ◌∙◌, true, false, some, List, arith, nat_eq, nat_eq_iff, Bool-cases,
  inl, inr,
}
use my_db.Index.BPlusTree.{BPlusNode, internal, leaf}
use my_db.Index.BPlusTree.Insertion.{with_child, lower_bound}
use my_db.Index.BPlusTree.Entries.{length-insert_at}
use my_db.Index.BPlusTree.Ranges.{Kids, Kids-map, Cut, Kids-insert_at, Kids-find}
use my_db.Index.BPlusTree.Shape.{
  Shape, Content, Nodes, IsLeaf, IsInner, Kid, HasPlace, IsTree, IsPending,
}
use my_db.Index.BPlusTree.Update.{update, update_self}

module _ {g : Shape} {c : Content} {len r : ℕ} {ns : Nodes} (s : IsTree g c len r ns)
    {l key new : ℕ} (w : IsPending g ns l key new) (free : (ns l).is_root ≡ false) where
  abbrev pub attached_shape : Shape
  attached_shape = record g {
    attached = update new true g.attached;
    outer = update l key g.outer;
    parent = update new (g.parent l) g.parent;
  }

  abbrev pub attached_nodes : Nodes
  attached_nodes =
      update new (record (ns new) { parent_idx = some (g.parent l) })
        (update (g.parent l) (with_child key new (ns (g.parent l))) ns)

  pub place : HasPlace g ns l
  place = s.place l w.left_attached free

  pub inner : IsInner g (g.parent l) (ns (g.parent l))
  inner = s.inner (g.parent l) place.live place.type

  -- The new node is neither a child of its parent yet, nor the parent.
  not_child : (i d a b : ℕ) → Kid g i d a b → nat_eq new d ≡ false
  not_child i d a b kid = ground (arith, nat_eq_iff new d, kid.attached, w.right_attached)

  apart_new : nat_eq new l ≡ false
  apart_new = ground (arith, nat_eq_iff new l, w.left_attached, w.right_attached)

  pub height_parent : suc (g.height l) ≡ g.height (g.parent l)
  height_parent = let (a, b, kid) = Kids-find l inner.kids place.among in kid.height

  pub new_not_parent : nat_eq new (g.parent l) ≡ false
  new_not_parent = elim (Bool-cases (nat_eq new (g.parent l))) [
    | inl same ↦
        absurd (
          omega
            (arith, height_parent, w.height, ap g.height ((nat_eq_iff new (g.parent l)).0 same)))
    | inr other ↦ other
  ]

  Kid-keeps : (i d a b : ℕ) → l ≢ d → Kid g i d a b → Kid attached_shape i d a b
  Kid-keeps i d a b ne kid =
      let other = not_child i d a b kid in
      let away : nat_eq l d ≡ false = ground (arith, nat_eq_iff l d) in
      record {
        attached = rw other kid.attached;
        lo = kid.lo;
        outer = rw away kid.outer;
        height = kid.height;
        parent = rw other kid.parent;
      }

  cut : Cut (Kid g (g.parent l)) (Kid attached_shape (g.parent l)) g.lo l key new
  cut = record {
    begins = λ d a b kid. kid.lo;
    keeps = λ d a b ne kid. Kid-keeps (g.parent l) d a b ne kid;
    first = λ a b kid. record {
      attached = rw apart_new kid.attached;
      lo = kid.lo;
      outer = update_self l key g.outer;
      height = kid.height;
      parent = rw apart_new refl;
    };
    second = λ a b kid. record {
      attached = update_self new true g.attached;
      lo = w.right_lo;
      outer = ground (
        arith,
        nat_eq_iff l new,
        nat_eq_iff new l,
        apart_new,
        w.outer new,
        w.right_hi,
        kid.outer,
      );
      height = omega (arith, w.height, kid.height);
      parent = update_self new (g.parent l) g.parent;
    };
    above = w.above;
    below = λ a b kid. omega (arith, w.below, w.right_hi, kid.outer);
  }

  -- What neither the parent nor the new node changes, no node does.
  part-attach :
      {A : Type 0} (part : BPlusNode → A) (i : ℕ)
      → part (with_child key new (ns (g.parent l))) ≡ part (ns (g.parent l))
      → part (record (ns new) { parent_idx = some (g.parent l) }) ≡ part (ns new)
      → part (attached_nodes i) ≡ part (ns i)
  part-attach part i e d = elim (Bool-cases (nat_eq new i)) [
    | inl same ↦ rw (same, ← (nat_eq_iff new i).0 same) d
    | inr other ↦ elim (Bool-cases (nat_eq (g.parent l) i)) [
      | inl here ↦ rw (other, here, ← (nat_eq_iff (g.parent l) i).0 here) e
      | inr away ↦ rw (other, away) refl
    ]
  ]

  pub pointer-attach :
      (i : ℕ) → nat_eq new i ≡ false → (attached_nodes i).parent_idx ≡ (ns i).parent_idx
  unfolding with_child
  pointer-attach i other = elim (Bool-cases (nat_eq (g.parent l) i)) [
    | inl here ↦ rw (other, here, ← (nat_eq_iff (g.parent l) i).0 here) refl
    | inr away ↦ rw (other, away) refl
  ]

  pub type-attach : (i : ℕ) → (attached_nodes i).type ≡ (ns i).type
  unfolding with_child
  type-attach i = part-attach (λ x. x.type) i refl refl

  pub root-attach : (i : ℕ) → (attached_nodes i).is_root ≡ (ns i).is_root
  unfolding with_child
  root-attach i = part-attach (λ x. x.is_root) i refl refl

  pub next-attach : (i : ℕ) → (attached_nodes i).next_leaf_idx ≡ (ns i).next_leaf_idx
  unfolding with_child
  next-attach i = part-attach (λ x. x.next_leaf_idx) i refl refl

  pub leaves-attach :
      (i : ℕ) → g.live i ≡ true → (ns i).type ≡ leaf → IsLeaf (g.lo i) (g.hi i) c (attached_nodes i)
  leaves-attach i h t =
      let old = s.leaves i h t in
      elim (Bool-cases (nat_eq new i)) [
        | inl same ↦
            let at : IsLeaf (g.lo i) (g.hi i) c (ns new) = rw ((nat_eq_iff new i).0 same) old in
            rw same (record {
              size = at.size;
              values = at.values;
              ascending = at.ascending;
              entry = at.entry;
            })
        | inr other ↦ elim (Bool-cases (nat_eq (g.parent l) i)) [
          | inl here ↦ absurd (ground (arith, t, place.type, nat_eq_iff (g.parent l) i))
          | inr away ↦ rw (other, away) old
        ]
      ]

  inner-parent : IsInner attached_shape (g.parent l) (with_child key new (ns (g.parent l)))
  unfolding with_child
  inner-parent = record {
    size = omega (
      arith,
      inner.size,
      length-insert_at (lower_bound key (ns (g.parent l)).keys) key (ns (g.parent l)).keys,
    );
    kids = Kids-insert_at cut inner.kids place.among;
  }

  Kids-elsewhere :
      (i : ℕ) {hi lo : ℕ} {ks cs : List ℕ}
      → g.parent l ≢ i
      → Kids (Kid g i) hi lo ks cs
      → Kids (Kid attached_shape i) hi lo ks cs
  Kids-elsewhere i ne kids =
      Kids-map (λ d a b kid. Kid-keeps i d a b (λ e. ne (ap g.parent e ∙ kid.parent)) kid) kids

  pub inner-attach :
      (i : ℕ)
      → g.live i ≡ true
      → (ns i).type ≡ internal
      → IsInner attached_shape i (attached_nodes i)
  inner-attach i h t =
      let old = s.inner i h t in
      elim (Bool-cases (nat_eq (g.parent l) i)) [
        | inl here ↦
            let same : g.parent l ≡ i = (nat_eq_iff (g.parent l) i).0 here in
            rw (← same, new_not_parent, (nat_eq_iff (g.parent l) (g.parent l)).1 refl) inner-parent
        | inr away ↦
            let ne : g.parent l ≢ i = λ e. ground (arith, nat_eq_iff (g.parent l) i) in
            elim (Bool-cases (nat_eq new i)) [
              | inl same ↦
                  let at : IsInner g i (ns new) = rw ((nat_eq_iff new i).0 same) old in
                  rw same (record { size = at.size; kids = Kids-elsewhere i ne at.kids })
              | inr other ↦
                  rw (other, away) (record { size = old.size; kids = Kids-elsewhere i ne old.kids })
            ]
      ]
