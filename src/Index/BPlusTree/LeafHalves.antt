-- ===== src/Index/BPlusTree/LeafHalves.antt =====
-- The tree with a leaf in two halves (`splitLeafAndInsert` of src/index/BPlusTree.cpp).
use my_db.Base.{
  ℕ, suc, ◌≤◌, ◌<◌, ◌≡◌, ◌≢◌, ◌⊎◌, refl, sym, ap, ◌∙◌, true, false, Option, none, some, arith,
  length, nat_eq, nat_eq_iff, Bool-cases, inl, inr,
}
use my_db.Index.BPlusTree.{leaf}
use my_db.Index.BPlusTree.Shape.{
  Shape, Content, Nodes, HasPlace, IsNext, IsTree, IsWhole, IsPending,
}
use my_db.Index.BPlusTree.Update.{update, update_self}
use my_db.Index.BPlusTree.LeafSplit.{
  left_half, right_half, leaves-split, split_shape, split_nodes, inner-split, part-split,
  type-split, live-split, between, not_new, middle,
}

module _ {g : Shape} {c : Content} {len r : ℕ} {ns : Nodes} (s : IsTree g c len r ns)
    (w : IsWhole g) (l split : ℕ) (live : g.live l ≡ true) (is : (ns l).type ≡ leaf)
    (pos : 0 < split) (lt : split < length (ns l).keys) where
  place-split :
      (i : ℕ)
      → g.attached i ≡ true
      → ((split_nodes s w l split live is pos lt) i).is_root ≡ false
      → HasPlace (split_shape s w l split live is pos lt) (split_nodes s w l split live is pos lt) i
  place-split i h free =
      let lives = s.attached-live i h in
      let p =
        s.place i h
          (sym ((part-split s w l split live is pos lt) (λ x. x.is_root) i lives refl) ∙ free) in
      let other = (not_new s w l split live is pos lt) i lives in
      record {
        pointer =
            (part-split s w l split live is pos lt) (λ x. x.parent_idx) i lives refl
            ∙ p.pointer
            ∙ rw other refl;
        live = rw (other, (not_new s w l split live is pos lt) (g.parent i) p.live) p.live;
        type = rw other ((type-split s w l split live is pos lt) (g.parent i) p.live ∙ p.type);
        among =
            rw
              (
                other,
                (part-split s w l split live is pos lt) (λ x. x.child_indices) (g.parent i) p.live
                    refl,
              )
              p.among;
      }

  IsNext-split :
      (hi : ℕ) (next : Option ℕ)
      → IsNext g ns hi next
      → IsNext
          (split_shape s w l split live is pos lt)
          (split_nodes s w l split live is pos lt)
          hi
          next
  IsNext-split hi none h = h
  IsNext-split hi (some n) h =
      let (lives, t, lo) = h in
      (
        rw ((not_new s w l split live is pos lt) n lives) lives,
        (type-split s w l split live is pos lt) n lives ∙ t,
        rw ((not_new s w l split live is pos lt) n lives) lo,
      )

  chain-split :
      (i : ℕ)
      → (split_shape s w l split live is pos lt).live i ≡ true
      → ((split_nodes s w l split live is pos lt) i).type ≡ leaf
      → IsNext
          (split_shape s w l split live is pos lt)
          (split_nodes s w l split live is pos lt)
          ((split_shape s w l split live is pos lt).hi i)
          ((split_nodes s w l split live is pos lt) i).next_leaf_idx
  chain-split i h t = elim (Bool-cases (nat_eq len i)) [
    | inl new ↦ rw new (IsNext-split (g.hi l) (ns l).next_leaf_idx (s.chain l live is))
    | inr other ↦ elim (Bool-cases (nat_eq l i)) [
      | inl here ↦
          rw (other, here)
            (
              update_self len true g.live,
              ap (λ x. x.type)
                  (update_self len (right_half split len (ns l))
                    (update l (left_half split len (ns l)) ns)),
              update_self len (middle s w l split live is pos lt) g.lo,
            )
      | inr away ↦
          rw (other, away)
            (IsNext-split (g.hi i) (ns i).next_leaf_idx (
              s.chain i ((live-split s w l split live is pos lt) i h other)
                (rw (other, away) at t)))
    ]
  ]

  flip : {A B : Type 0} → A ⊎ B → B ⊎ A
  flip (inl a) = inr a
  flip (inr b) = inl b

  new-apart :
      (j : ℕ)
      → g.live j ≡ true
      → (ns j).type ≡ leaf
      → (g.hi l ≤ g.lo j)
        ⊎ (update l (middle s w l split live is pos lt) g.hi j
            ≤ (middle s w l split live is pos lt))
  new-apart j v tj = elim (Bool-cases (nat_eq l j)) [
    | inl same ↦ rw same (inr (omega arith))
    | inr away ↦ rw away (
        ground
          (arith, s.apart l j live v is tj, nat_eq_iff l j, (between s w l split live is pos lt)))
  ]

  hi-le : (x : ℕ) → update l (middle s w l split live is pos lt) g.hi x ≤ g.hi x
  hi-le x = ground (arith, nat_eq_iff l x, (between s w l split live is pos lt))

  apart-split :
      (i j : ℕ)
      → (split_shape s w l split live is pos lt).live i ≡ true
      → (split_shape s w l split live is pos lt).live j ≡ true
      → ((split_nodes s w l split live is pos lt) i).type ≡ leaf
      → ((split_nodes s w l split live is pos lt) j).type ≡ leaf
      → i ≢ j
      → ((split_shape s w l split live is pos lt).hi i
          ≤ (split_shape s w l split live is pos lt).lo j)
        ⊎ ((split_shape s w l split live is pos lt).hi j
            ≤ (split_shape s w l split live is pos lt).lo i)
  apart-split i j u v ti tj ne = elim (Bool-cases (nat_eq len i)) [
    | inl new ↦ elim (Bool-cases (nat_eq len j)) [
      | inl new' ↦ absurd (ne (ground (arith, nat_eq_iff len i, nat_eq_iff len j)))
      | inr other ↦
          rw (new, other)
            (new-apart j ((live-split s w l split live is pos lt) j v other) (
              sym (
                (type-split s w l split live is pos lt) j
                  ((live-split s w l split live is pos lt) j v other))
              ∙ tj))
    ]
    | inr old_i ↦ elim (Bool-cases (nat_eq len j)) [
      | inl new ↦
          rw (new, old_i)
            (flip (
              new-apart i ((live-split s w l split live is pos lt) i u old_i) (
                sym (
                  (type-split s w l split live is pos lt) i
                    ((live-split s w l split live is pos lt) i u old_i))
                ∙ ti)))
      | inr old_j ↦
          let ui = (live-split s w l split live is pos lt) i u old_i in
          let vj = (live-split s w l split live is pos lt) j v old_j in
          rw (old_i, old_j)
            (ground (
              arith,
              s.apart i j ui vj (sym ((type-split s w l split live is pos lt) i ui) ∙ ti)
                  (sym ((type-split s w l split live is pos lt) j vj) ∙ tj) ne,
              hi-le i,
              hi-le j,
            ))
    ]
  ]

  root_split :
      (x : ℕ)
      → g.live x ≡ true
      → ((split_nodes s w l split live is pos lt) x).is_root ≡ true
      → x ≡ r
  root_split x h flag =
      s.root_only x h
        (sym ((part-split s w l split live is pos lt) (λ y. y.is_root) x h refl) ∙ flag)

  root_live : g.live r ≡ true
  root_live = s.attached-live r s.root_attached

  pub split-IsTree :
      IsTree
        (split_shape s w l split live is pos lt)
        c
        (suc len)
        r
        (split_nodes s w l split live is pos lt)
  split-IsTree = record {
    bound = λ i h. elim (Bool-cases (nat_eq len i)) [
      | inl new ↦ omega (arith, (nat_eq_iff len i).0 new)
      | inr other ↦ omega (arith, s.bound i ((live-split s w l split live is pos lt) i h other))
    ];
    leaves = (leaves-split s w l split live is pos lt);
    inner = (inner-split s w l split live is pos lt);
    place = place-split;
    chain = chain-split;
    apart = apart-split;
    attached-live = λ i h.
        let lives = s.attached-live i h in rw ((not_new s w l split live is pos lt) i lives) lives;
    root_attached = s.root_attached;
    root_lo = rw ((not_new s w l split live is pos lt) r root_live) s.root_lo;
    root_outer = rw ((not_new s w l split live is pos lt) r root_live) s.root_outer;
    root_height =
        rw ((not_new s w l split live is pos lt) r root_live) (omega (arith, s.root_height));
    root_highest = λ i h. ground (
      arith,
      (not_new s w l split live is pos lt) r root_live,
      s.root_highest l live,
      s.root_highest i,
      (live-split s w l split live is pos lt) i h,
    );
    root_flag =
        (part-split s w l split live is pos lt) (λ y. y.is_root) r root_live refl ∙ s.root_flag;
    root_only = λ i h flag. elim (Bool-cases (nat_eq len i)) [
      | inl new ↦ absurd (ground (arith, rw new at flag))
      | inr other ↦ root_split i ((live-split s w l split live is pos lt) i h other) flag
    ];
  }

  pub split-IsPending :
      IsPending
        (split_shape s w l split live is pos lt)
        (split_nodes s w l split live is pos lt)
        l
        (middle s w l split live is pos lt)
        len
  split-IsPending = record {
    left_attached = w.attached l live;
    right_live = update_self len true g.live;
    right_attached = elim (Bool-cases (g.attached len)) [
      | inl there ↦ absurd (omega (arith, s.bound len (s.attached-live len there)))
      | inr out ↦ out
    ];
    attached = λ i ne h.
        w.attached i
          ((live-split s w l split live is pos lt) i h (ground (arith, nat_eq_iff len i)));
    outer = λ i ne. ground (arith, nat_eq_iff len i, nat_eq_iff l i, w.outer i);
    left_hi =
        rw ((not_new s w l split live is pos lt) l live)
          (update_self l (middle s w l split live is pos lt) g.hi);
    right_lo = update_self len (middle s w l split live is pos lt) g.lo;
    right_hi =
        update_self len (g.hi l) (update l (middle s w l split live is pos lt) g.hi)
        ∙ sym (w.outer l)
        ∙ rw ((not_new s w l split live is pos lt) l live) refl;
    above = rw ((not_new s w l split live is pos lt) l live) (between s w l split live is pos lt).0;
    below =
        rw (update_self len (g.hi l) (update l (middle s w l split live is pos lt) g.hi))
          (between s w l split live is pos lt).1;
    height =
        rw ((not_new s w l split live is pos lt) l live) (update_self len (g.height l) g.height);
    not_root =
        ap (λ x. x.is_root)
          (update_self len (right_half split len (ns l))
            (update l (left_half split len (ns l)) ns));
  }
