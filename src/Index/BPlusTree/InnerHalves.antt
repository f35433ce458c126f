-- ===== src/Index/BPlusTree/InnerHalves.antt =====
-- The tree with an internal node in two halves (`splitInternal` of src/index/BPlusTree.cpp).
use my_db.Base.{
  ℕ, suc, ◌<◌, ◌≡◌, refl, sym, ◌∙◌, true, false, Option, none, some, arith, length, member, nat_eq,
  nat_eq_iff, Bool-cases, inl, inr,
}
use my_db.Index.BPlusTree.{internal, leaf}
use my_db.Index.BPlusTree.Halving.{member-take-drop}
use my_db.Index.BPlusTree.Shape.{
  Shape, Content, Nodes, HasPlace, IsNext, IsTree, IsWhole, IsPending,
}
use my_db.Index.BPlusTree.Update.{update_self}
use my_db.Index.BPlusTree.InnerSplit.{
  elsewhere, children-halved, leaves-halved, halved_shape, halved_nodes, inner-halved, moved-child,
  part-halved, type-halved, live-halved, lo-halved, hi-halved, promoted, here_len, between, not_new,
  here_p, at_len, moved, new_p, at_p,
}

module _ {g : Shape} {c : Content} {len r : ℕ} {ns : Nodes} (s : IsTree g c len r ns)
    (w : IsWhole g) (p mid : ℕ) (live : g.live p ≡ true) (is : (ns p).type ≡ internal)
    (lt : mid < length (ns p).keys) where
  pub not_self : member p (moved s w p mid live is lt) ≡ false
  not_self = elim (Bool-cases (member p (moved s w p mid live is lt))) [
    | inl m ↦
        let (_, _, there) = (moved-child s w p mid live is lt) p m in
        absurd (omega (arith, there.0.height))
    | inr out ↦ out
  ]

  pointer-halved :
      (i : ℕ)
      → g.live i ≡ true
      → (ns i).parent_idx ≡ some (g.parent i)
      → ((halved_nodes s w p mid live is lt) i).parent_idx
        ≡ some ((halved_shape s w p mid live is lt).parent i)
  pointer-halved i h pointer = elim (Bool-cases (nat_eq p i)) [
    | inl same ↦
        let at : p ≡ i = (nat_eq_iff p i).0 same in
        rw (← at, (at_p s w p mid live is lt), not_self) (rw at pointer)
    | inr away ↦ elim (Bool-cases (member i (moved s w p mid live is lt))) [
      | inl m ↦ rw ((not_new s w p mid live is lt) i h, away, m) refl
      | inr out ↦ rw ((not_new s w p mid live is lt) i h, away, out) pointer
    ]
  ]

  -- What node `q` has for children, less those that (moved s w p mid live is lt).
  children-keep :
      (i q : ℕ)
      → g.live q ≡ true
      → member i (ns q).child_indices ≡ true
      → member i (moved s w p mid live is lt) ≡ false
      → member i ((halved_nodes s w p mid live is lt) q).child_indices ≡ true
  children-keep i q lives m out = elim (Bool-cases (nat_eq p q)) [
    | inl same ↦
        let at : p ≡ q = (nat_eq_iff p q).0 same in
        let there : member i (ns p).child_indices ≡ true = rw at m in
        rw (← at, (at_p s w p mid live is lt))
          (ground (arith, out, there, member-take-drop i (suc mid) (ns p).child_indices))
    | inr away ↦ rw ((children-halved s w p mid live is lt) q lives away) m
  ]

  place-halved :
      (i : ℕ)
      → g.attached i ≡ true
      → ((halved_nodes s w p mid live is lt) i).is_root ≡ false
      → HasPlace (halved_shape s w p mid live is lt) (halved_nodes s w p mid live is lt) i
  place-halved i h flag =
      let lives = s.attached-live i h in
      let old_place = s.place i h (
        sym ((part-halved s w p mid live is lt) (λ x. x.is_root) i lives refl (λ _. refl))
        ∙ flag) in
      elim (Bool-cases (member i (moved s w p mid live is lt))) [
        | inl m ↦ record {
          pointer = pointer-halved i lives old_place.pointer;
          live = rw m (update_self len true g.live);
          type = rw (m, (at_len s w p mid live is lt)) refl;
          among = rw (m, (at_len s w p mid live is lt)) m;
        }
        | inr out ↦ record {
          pointer = pointer-halved i lives old_place.pointer;
          live =
              rw (out, (not_new s w p mid live is lt) (g.parent i) old_place.live) old_place.live;
          type =
              rw out
                ((type-halved s w p mid live is lt) (g.parent i) old_place.live ∙ old_place.type);
          among = rw out (children-keep i (g.parent i) old_place.live old_place.among out);
        }
      ]

  IsNext-halved :
      (hi : ℕ) (next : Option ℕ)
      → IsNext g ns hi next
      → IsNext (halved_shape s w p mid live is lt) (halved_nodes s w p mid live is lt) hi next
  IsNext-halved hi none h = h
  IsNext-halved hi (some n) h =
      let (lives, t, lo) = h in
      (
        rw ((not_new s w p mid live is lt) n lives) lives,
        (type-halved s w p mid live is lt) n lives ∙ t,
        rw ((not_new s w p mid live is lt) n lives) lo,
      )

  old_leaf :
      (i : ℕ)
      → (halved_shape s w p mid live is lt).live i ≡ true
      → ((halved_nodes s w p mid live is lt) i).type ≡ leaf
      → (g.live i ≡ true) × ((ns i).type ≡ leaf) × (nat_eq p i ≡ false)
  old_leaf i h t = elim (Bool-cases (nat_eq len i)) [
    | inl new ↦ absurd (ground (arith, rw new at t))
    | inr other ↦
        let lives = (live-halved s w p mid live is lt) i h other in
        let t' : (ns i).type ≡ leaf = sym ((type-halved s w p mid live is lt) i lives) ∙ t in
        (lives, t', ground (arith, is, nat_eq_iff p i))
  ]

  root_live : g.live r ≡ true
  root_live = s.attached-live r s.root_attached

  pub halved-IsTree :
      IsTree (halved_shape s w p mid live is lt) c (suc len) r (halved_nodes s w p mid live is lt)
  halved-IsTree = record {
    bound = λ i h. elim (Bool-cases (nat_eq len i)) [
      | inl new ↦ omega (arith, (nat_eq_iff len i).0 new)
      | inr other ↦ omega (arith, s.bound i ((live-halved s w p mid live is lt) i h other))
    ];
    leaves = (leaves-halved s w p mid live is lt);
    inner = (inner-halved s w p mid live is lt);
    place = place-halved;
    chain = λ i h t.
        let (lives, t', away) = old_leaf i h t in
        rw
          (
            (elsewhere s w p mid live is lt) i lives away (λ x. x.next_leaf_idx) (λ _. refl),
            (hi-halved s w p mid live is lt) i lives away,
          )
          (IsNext-halved (g.hi i) (ns i).next_leaf_idx (s.chain i lives t'));
    apart = λ i j u v ti tj ne.
        let (ui, ti', ai) = old_leaf i u ti in
        let (vj, tj', aj) = old_leaf j v tj in
        rw
          (
            (hi-halved s w p mid live is lt) i ui ai,
            (lo-halved s w p mid live is lt) i ui ai,
            (hi-halved s w p mid live is lt) j vj aj,
            (lo-halved s w p mid live is lt) j vj aj,
          )
          (s.apart i j ui vj ti' tj' ne);
    attached-live =
        λ i h. let lives = s.attached-live i h in rw ((not_new s w p mid live is lt) i lives) lives;
    root_attached = s.root_attached;
    root_lo = rw ((not_new s w p mid live is lt) r root_live) s.root_lo;
    root_outer = rw ((not_new s w p mid live is lt) r root_live) s.root_outer;
    root_height = rw ((not_new s w p mid live is lt) r root_live) (omega (arith, s.root_height));
    root_highest = λ i h. ground (
      arith,
      (not_new s w p mid live is lt) r root_live,
      s.root_highest p live,
      s.root_highest i,
      (live-halved s w p mid live is lt) i h,
    );
    root_flag =
        (part-halved s w p mid live is lt) (λ x. x.is_root) r root_live refl (λ _. refl)
        ∙ s.root_flag;
    root_only = λ i h flag. elim (Bool-cases (nat_eq len i)) [
      | inl new ↦ absurd (ground (arith, rw new at flag))
      | inr other ↦
          let lives = (live-halved s w p mid live is lt) i h other in
          s.root_only i lives (
            sym ((part-halved s w p mid live is lt) (λ x. x.is_root) i lives refl (λ _. refl))
            ∙ flag)
    ];
  }

  pub halved-IsPending :
      IsPending
        (halved_shape s w p mid live is lt)
        (halved_nodes s w p mid live is lt)
        p
        (promoted s w p mid live is lt)
        len
  halved-IsPending = record {
    left_attached = w.attached p live;
    right_live = update_self len true g.live;
    right_attached = elim (Bool-cases (g.attached len)) [
      | inl there ↦ absurd (omega (arith, s.bound len (s.attached-live len there)))
      | inr out ↦ out
    ];
    attached = λ i ne h.
        w.attached i ((live-halved s w p mid live is lt) i h (ground (arith, nat_eq_iff len i)));
    outer = λ i ne. ground (arith, nat_eq_iff len i, nat_eq_iff p i, w.outer i);
    left_hi = rw ((new_p s w p mid live is lt), (here_p s w p mid live is lt)) refl;
    right_lo = update_self len (promoted s w p mid live is lt) g.lo;
    right_hi =
        rw (here_len s w p mid live is lt) (sym (w.outer p) ∙ rw (new_p s w p mid live is lt) refl);
    above = rw (new_p s w p mid live is lt) (between s w p mid live is lt).0;
    below = rw (here_len s w p mid live is lt) (between s w p mid live is lt).1;
    height = rw ((here_len s w p mid live is lt), (new_p s w p mid live is lt)) refl;
    not_root = rw (at_len s w p mid live is lt) refl;
  }
