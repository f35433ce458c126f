-- ===== src/Index/BPlusTree/Grown.antt =====
-- The tree under its new root (`insertIntoParent` of src/index/BPlusTree.cpp at the root).
use my_db.Base.{
  ℕ, suc, ◌≡◌, refl, sym, ap, ◌∙◌, true, false, Option, none, some, [], ◌∷◌, arith, member, nat_eq,
  nat_eq_iff, Bool-cases, inl, inr,
}
use my_db.Index.BPlusTree.{leaf}
use my_db.Index.BPlusTree.Shape.{
  Shape, Content, Nodes, top, HasPlace, IsNext, IsTree, IsWhole, IsPending,
}
use my_db.Index.BPlusTree.Update.{update, update_self}
use my_db.Index.BPlusTree.Growing.{
  children-grown, leaves-grown, grown_shape, grown_nodes, inner-grown, part-grown, type-grown,
  live-grown, root-inner, here_len, lo-grown, hi-grown, not_len, at_len, new_l, is_r,
}

module _ {g : Shape} {c : Content} {len r : ℕ} {ns : Nodes} (s : IsTree g c len r ns)
    {l key new : ℕ} (w : IsPending g ns l key new) (at_top : (ns l).is_root ≡ true) where
  root-grown : (i : ℕ) → g.live i ≡ true → ((grown_nodes s w at_top) i).is_root ≡ true → i ≡ l
  root-grown i h flag = elim (Bool-cases (nat_eq new i)) [
    | inl same ↦ absurd (ground (arith, rw same at flag, w.not_root))
    | inr other ↦ elim (Bool-cases (nat_eq l i)) [
      | inl here ↦ sym ((nat_eq_iff l i).0 here)
      | inr away ↦
          s.root_only i h (rw (other, away, (not_len s w at_top) i h) at flag)
          ∙ sym (is_r s w at_top)
    ]
  ]

  left-flag : ((grown_nodes s w at_top) l).is_root ≡ false
  left-flag = rw ((new_l s w at_top), (nat_eq_iff l l).1 refl) refl

  under-root :
      (i : ℕ)
      → (grown_shape s w at_top).parent i ≡ len
      → ((grown_nodes s w at_top) i).parent_idx ≡ some len
      → member i (l ∷ new ∷ []) ≡ true
      → HasPlace (grown_shape s w at_top) (grown_nodes s w at_top) i
  under-root i up pointer m = record {
    pointer = pointer ∙ ap some (sym up);
    live = rw up (update_self len true g.live);
    type = rw (up, (at_len s w at_top)) refl;
    among = rw (up, (at_len s w at_top)) m;
  }

  place-grown :
      (i : ℕ)
      → (grown_shape s w at_top).attached i ≡ true
      → ((grown_nodes s w at_top) i).is_root ≡ false
      → HasPlace (grown_shape s w at_top) (grown_nodes s w at_top) i
  unfolding member
  place-grown i h flag = elim (Bool-cases (nat_eq new i)) [
    | inl same ↦ under-root i (rw same refl) (rw same refl) (rw same (ground arith))
    | inr other ↦ elim (Bool-cases (nat_eq l i)) [
      | inl here ↦ under-root i (rw (other, here) refl) (rw (other, here) refl) (rw here refl)
      | inr away ↦ elim (Bool-cases (nat_eq len i)) [
        | inl at ↦ absurd (ground (arith, rw (other, away, at) at flag))
        | inr old ↦
            let lives : g.attached i ≡ true = rw (old, other) at h in
            let p = s.place i lives (rw (other, away, old) at flag) in
            let same_parent : (grown_shape s w at_top).parent i ≡ g.parent i =
              rw (other, away) refl in
            record {
              pointer = rw (other, away, old) p.pointer;
              live = rw (same_parent, (not_len s w at_top) (g.parent i) p.live) p.live;
              type = rw same_parent ((type-grown s w at_top) (g.parent i) p.live ∙ p.type);
              among =
                  rw
                    (
                      same_parent,
                      (children-grown s w at_top) (g.parent i)
                          (rw ((not_len s w at_top) (g.parent i) p.live) p.live)
                          ((not_len s w at_top) (g.parent i) p.live),
                    )
                    p.among;
            }
      ]
    ]
  ]

  IsNext-grown :
      (hi : ℕ) (next : Option ℕ)
      → IsNext g ns hi next
      → IsNext (grown_shape s w at_top) (grown_nodes s w at_top) hi next
  IsNext-grown hi none h = h
  IsNext-grown hi (some n) h =
      let (lives, t, lo) = h in
      (
        rw ((not_len s w at_top) n lives) lives,
        (type-grown s w at_top) n lives ∙ t,
        rw ((not_len s w at_top) n lives) lo,
      )

  old-leaf :
      (i : ℕ)
      → (grown_shape s w at_top).live i ≡ true
      → ((grown_nodes s w at_top) i).type ≡ leaf
      → (nat_eq len i ≡ false) × (g.live i ≡ true) × ((ns i).type ≡ leaf)
  old-leaf i h t = elim (Bool-cases (nat_eq len i)) [
    | inl here ↦ absurd ((root-inner s w at_top) i here t)
    | inr other ↦
        let lives = (live-grown s w at_top) i h other in
        (other, lives, sym ((type-grown s w at_top) i lives) ∙ t)
  ]

  pub grown-IsTree : IsTree (grown_shape s w at_top) c (suc len) len (grown_nodes s w at_top)
  grown-IsTree = record {
    bound = λ i h. elim (Bool-cases (nat_eq len i)) [
      | inl here ↦ omega (arith, (nat_eq_iff len i).0 here)
      | inr other ↦ omega (arith, s.bound i ((live-grown s w at_top) i h other))
    ];
    leaves = (leaves-grown s w at_top);
    inner = (inner-grown s w at_top);
    place = place-grown;
    chain = λ i h t.
        let (other, lives, is) = old-leaf i h t in
        rw
          (
            (part-grown s w at_top) (λ x. x.next_leaf_idx) i lives refl refl,
            (hi-grown s w at_top) i h other,
          )
          (IsNext-grown (g.hi i) (ns i).next_leaf_idx (s.chain i lives is));
    apart = λ i j u v ti tj ne.
        let (oi, ui, si) = old-leaf i u ti in
        let (oj, vj, sj) = old-leaf j v tj in
        rw
          (
            (hi-grown s w at_top) i u oi,
            (lo-grown s w at_top) i u oi,
            (hi-grown s w at_top) j v oj,
            (lo-grown s w at_top) j v oj,
          )
          (s.apart i j ui vj si sj ne);
    attached-live = λ i h. ground (arith, s.attached-live i, nat_eq_iff new i, w.right_live);
    root_attached = update_self len true (update new true g.attached);
    root_lo = update_self len 0 g.lo;
    root_outer = update_self len top (update l key g.outer);
    root_height =
        rw (here_len s w at_top) (ground (arith, s.root_height, ap g.height (is_r s w at_top)));
    root_highest = λ i h. rw (here_len s w at_top) (
        ground
          (arith, ap g.height (is_r s w at_top), s.root_highest i, (live-grown s w at_top) i h));
    root_flag = rw (at_len s w at_top) refl;
    root_only = λ i h flag. elim (Bool-cases (nat_eq len i)) [
      | inl here ↦ sym ((nat_eq_iff len i).0 here)
      | inr other ↦
          let at_left = root-grown i ((live-grown s w at_top) i h other) flag in
          absurd (ground (arith, left-flag, rw at_left at flag))
    ];
  }

  pub grown-IsWhole : IsWhole (grown_shape s w at_top)
  grown-IsWhole = record {
    attached = λ i h. ground (arith, nat_eq_iff new i, w.attached i);
    outer = λ i. ground (arith, nat_eq_iff l i, w.outer i, w.left_hi);
  }
