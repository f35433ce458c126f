-- ===== src/Index/BPlusTree/Attached.antt =====
-- The tree with the new half below its parent (`insertIntoParent` of src/index/BPlusTree.cpp).
use my_db.Base.{
  ℕ, suc, ◌≡◌, refl, sym, ◌∙◌, true, false, Option, none, some, arith, member, nat_eq, nat_eq_iff,
  Bool-cases, inl, inr,
}
use my_db.Index.BPlusTree.Insertion.{with_child, lower_bound}
use my_db.Index.BPlusTree.Ranges.{member-insert_at}
use my_db.Index.BPlusTree.Shape.{
  Shape, Content, Nodes, HasPlace, IsNext, IsTree, IsWhole, IsPending,
}
use my_db.Index.BPlusTree.Attaching.{
  attached_shape, attached_nodes, new_not_parent, pointer-attach, leaves-attach, inner-attach,
  type-attach, root-attach, next-attach, place,
}

module _ {g : Shape} {c : Content} {len r : ℕ} {ns : Nodes} (s : IsTree g c len r ns)
    {l key new : ℕ} (w : IsPending g ns l key new) (free : (ns l).is_root ≡ false) where
  -- The children of the parent, and those of every other node.
  children-attach :
      (x i : ℕ)
      → member x (ns i).child_indices ≡ true
      → member x ((attached_nodes s w free) i).child_indices ≡ true
  unfolding with_child
  children-attach x i m = elim (Bool-cases (nat_eq new i)) [
    | inl same ↦ rw (same, (nat_eq_iff new i).0 same) m
    | inr other ↦ elim (Bool-cases (nat_eq (g.parent l) i)) [
      | inl here ↦
          rw (other, here, (nat_eq_iff (g.parent l) i).0 here)
            (ground (
              arith,
              m,
              member-insert_at x (suc (lower_bound key (ns i).keys)) new (ns i).child_indices,
            ))
      | inr away ↦ rw (other, away) m
    ]
  ]

  new-among : member new ((attached_nodes s w free) (g.parent l)).child_indices ≡ true
  unfolding with_child
  new-among =
      rw ((new_not_parent s w free), (nat_eq_iff (g.parent l) (g.parent l)).1 refl)
        (ground (
          arith,
          nat_eq_iff new new,
          member-insert_at new (suc (lower_bound key (ns (g.parent l)).keys)) new
              (ns (g.parent l)).child_indices,
        ))

  place-attach :
      (i : ℕ)
      → (attached_shape s w free).attached i ≡ true
      → ((attached_nodes s w free) i).is_root ≡ false
      → HasPlace (attached_shape s w free) (attached_nodes s w free) i
  place-attach i h flag = elim (Bool-cases (nat_eq new i)) [
    | inl same ↦ rw (← (nat_eq_iff new i).0 same) (record {
      pointer = rw ((nat_eq_iff new new).1 refl) refl;
      live = rw ((nat_eq_iff new new).1 refl) (place s w free).live;
      type =
          rw ((nat_eq_iff new new).1 refl)
            ((type-attach s w free) (g.parent l) ∙ (place s w free).type);
      among = rw ((nat_eq_iff new new).1 refl) new-among;
    })
    | inr other ↦
        let p = s.place i (rw other at h) (sym ((root-attach s w free) i) ∙ flag) in
        record {
          pointer = (pointer-attach s w free) i other ∙ p.pointer ∙ rw other refl;
          live = rw other p.live;
          type = rw other ((type-attach s w free) (g.parent i) ∙ p.type);
          among = rw other (children-attach i (g.parent i) p.among);
        }
  ]

  IsNext-attach :
      (hi : ℕ) (next : Option ℕ)
      → IsNext g ns hi next
      → IsNext (attached_shape s w free) (attached_nodes s w free) hi next
  IsNext-attach hi none h = h
  IsNext-attach hi (some n) h = let (lives, t, lo) = h in (lives, (type-attach s w free) n ∙ t, lo)

  pub attach-IsTree : IsTree (attached_shape s w free) c len r (attached_nodes s w free)
  attach-IsTree = record {
    bound = s.bound;
    leaves = λ i h t. (leaves-attach s w free) i h (sym ((type-attach s w free) i) ∙ t);
    inner = λ i h t. (inner-attach s w free) i h (sym ((type-attach s w free) i) ∙ t);
    place = place-attach;
    chain = λ i h t. rw ((next-attach s w free) i) (
        IsNext-attach (g.hi i) (ns i).next_leaf_idx
          (s.chain i h (sym ((type-attach s w free) i) ∙ t)));
    apart = λ i j u v ti tj ne.
        s.apart i j u v (sym ((type-attach s w free) i) ∙ ti) (sym ((type-attach s w free) j) ∙ tj)
          ne;
    attached-live = λ i h. elim (Bool-cases (nat_eq new i)) [
      | inl same ↦ rw (← (nat_eq_iff new i).0 same) w.right_live
      | inr other ↦ s.attached-live i (rw other at h)
    ];
    root_attached = ground (arith, s.root_attached);
    root_lo = s.root_lo;
    root_outer = ground (arith, nat_eq_iff l r, s.root_outer, s.root_flag, free);
    root_height = s.root_height;
    root_highest = s.root_highest;
    root_flag = (root-attach s w free) r ∙ s.root_flag;
    root_only = λ i h flag. s.root_only i h (sym ((root-attach s w free) i) ∙ flag);
  }

  pub attach-IsWhole : IsWhole (attached_shape s w free)
  attach-IsWhole = record {
    attached = λ i h. ground (arith, nat_eq_iff new i, w.attached i);
    outer = λ i. ground (arith, nat_eq_iff l i, w.outer i, w.left_hi);
  }
