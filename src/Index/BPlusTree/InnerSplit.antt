-- ===== src/Index/BPlusTree/InnerSplit.antt =====
-- The two halves of an internal node that was split (`splitInternal` of src/index/BPlusTree.cpp),
-- before the new one has its place.
use my_db.Base.{
  ℕ, suc, ◌≤◌, ◌<◌, ◌≡◌, ◌≢◌, refl, sym, ap, ◌∙◌, true, false, none, some, List, [], arith, length,
  member, take, drop, length-take, nat_eq, nat_eq_iff, Bool-cases, inl, inr, if◌then◌else◌,
}
use my_db.Index.BPlusTree.{BPlusNode, internal, leaf}
use my_db.Index.BPlusTree.Insertion.{key_at}
use my_db.Index.BPlusTree.Ranges.{Kids, Kids-map, Kids-lt, Kids-find}
use my_db.Index.BPlusTree.Halving.{Kids-take, Kids-drop, Kids-above, Kids-below, Kids-members}
use my_db.Index.BPlusTree.Shape.{Shape, Content, Nodes, IsLeaf, IsInner, Kid, IsTree, IsWhole}
use my_db.Index.BPlusTree.Update.{update, update_self}

-- The halves of internal node `n`, whose key `mid` goes up; the right one is node `new`.
abbrev pub lower_half : ℕ → BPlusNode → BPlusNode
lower_half mid n = record n {
  keys = take mid n.keys;
  child_indices = take (suc mid) n.child_indices;
  size = mid;
}

abbrev pub upper_half : ℕ → ℕ → BPlusNode → BPlusNode
upper_half mid new n = record {
  type = internal;
  is_root = false;
  page_id = new;
  parent_idx = n.parent_idx;
  size = length (drop (suc mid) n.keys);
  keys = drop (suc mid) n.keys;
  values = [];
  child_indices = drop (suc mid) n.child_indices;
  next_leaf_idx = none;
}

abbrev pub below_new : ℕ → List ℕ → Nodes → Nodes
below_new new moved ns i = if member i moved then record (ns i) { parent_idx = some new } else ns i

module _ {g : Shape} {c : Content} {len r : ℕ} {ns : Nodes} (s : IsTree g c len r ns)
    (w : IsWhole g) (p mid : ℕ) (live : g.live p ≡ true) (is : (ns p).type ≡ internal)
    (lt : mid < length (ns p).keys) where
  abbrev pub promoted : ℕ
  promoted = key_at (ns p).keys mid

  abbrev pub moved : List ℕ
  moved = drop (suc mid) (ns p).child_indices

  abbrev pub halved_shape : Shape
  halved_shape = record g {
    live = update len true g.live;
    lo = update len promoted g.lo;
    hi = update len (g.hi p) (update p promoted g.hi);
    outer = update len (g.hi p) g.outer;
    height = update len (g.height p) g.height;
    parent = λ i. if member i moved then len else g.parent i;
  }

  abbrev pub halved_nodes : Nodes
  halved_nodes =
      update len (upper_half mid len (ns p))
        (update p (lower_half mid (ns p)) (below_new len moved ns))

  old : IsInner g p (ns p)
  old = s.inner p live is

  lower :
      Kids
        (λ d a b. Kid g p d a b × (a < promoted))
        promoted
        (g.lo p)
        (take mid (ns p).keys)
        (take (suc mid) (ns p).child_indices)
  lower = Kids-below (Kids-take mid old.kids lt)

  upper :
      Kids
        (λ d a b. Kid g p d a b × (promoted ≤ a))
        (g.hi p)
        promoted
        (drop (suc mid) (ns p).keys)
        moved
  upper = Kids-above (Kids-drop mid old.kids lt)

  pub between : (g.lo p < promoted) × (promoted < g.hi p)
  between = (Kids-lt lower, Kids-lt upper)

  pub moved-child : (i : ℕ) → member i moved ≡ true → (a b : ℕ) × (Kid g p i a b × (promoted ≤ a))
  moved-child i m = Kids-find i upper m

  pub not_new : (i : ℕ) → g.live i ≡ true → nat_eq len i ≡ false
  not_new i h = ground (arith, s.bound i h)

  pub moved-lt : (i : ℕ) → member i moved ≡ true → i < len
  moved-lt i m =
      let (_, _, there) = moved-child i m in s.bound i (s.attached-live i there.0.attached)

  pub new_not_moved : member len moved ≡ false
  new_not_moved = elim (Bool-cases (member len moved)) [
    | inl m ↦ absurd (omega (arith, moved-lt len m))
    | inr out ↦ out
  ]

  stays : (i d a b : ℕ) → p ≢ i → Kid g i d a b → member d moved ≡ false
  stays i d a b ne kid = elim (Bool-cases (member d moved)) [
    | inl m ↦ let (_, _, there) = moved-child d m in absurd (ne (sym there.0.parent ∙ kid.parent))
    | inr out ↦ out
  ]

  pub part-halved :
      {A : Type 0} (part : BPlusNode → A) (i : ℕ)
      → g.live i ≡ true
      → part (lower_half mid (ns p)) ≡ part (ns p)
      → ((x : ℕ) → part (record (ns x) { parent_idx = some len }) ≡ part (ns x))
      → part (halved_nodes i) ≡ part (ns i)
  part-halved part i h e d = elim (Bool-cases (nat_eq p i)) [
    | inl same ↦ rw (not_new i h, same, ← (nat_eq_iff p i).0 same) e
    | inr away ↦ elim (Bool-cases (member i moved)) [
      | inl m ↦ rw (not_new i h, away, m) (d i)
      | inr out ↦ rw (not_new i h, away, out) refl
    ]
  ]

  pub type-halved : (i : ℕ) → g.live i ≡ true → (halved_nodes i).type ≡ (ns i).type
  type-halved i h = part-halved (λ x. x.type) i h refl (λ _. refl)

  pub live-halved : (i : ℕ) → halved_shape.live i ≡ true → nat_eq len i ≡ false → g.live i ≡ true
  live-halved i h other = rw other at h

  -- The parts of the nodes that are neither half.
  module _ (i : ℕ) (h : g.live i ≡ true) (away : nat_eq p i ≡ false) where
    pub elsewhere :
        {A : Type 0} (part : BPlusNode → A)
        → ((x : ℕ) → part (record (ns x) { parent_idx = some len }) ≡ part (ns x))
        → part (halved_nodes i) ≡ part (ns i)
    elsewhere part d = elim (Bool-cases (member i moved)) [
      | inl m ↦ rw (not_new i h, away, m) (d i)
      | inr out ↦ rw (not_new i h, away, out) refl
    ]

    pub lo-halved : halved_shape.lo i ≡ g.lo i
    lo-halved = rw (not_new i h) refl

    pub hi-halved : halved_shape.hi i ≡ g.hi i
    hi-halved = rw (not_new i h, away) refl

    keys-halved : (halved_nodes i).keys ≡ (ns i).keys
    keys-halved = elsewhere (λ x. x.keys) (λ _. refl)

    size-halved : (halved_nodes i).size ≡ (ns i).size
    size-halved = elsewhere (λ x. x.size) (λ _. refl)

    values-halved : (halved_nodes i).values ≡ (ns i).values
    values-halved = elsewhere (λ x. x.values) (λ _. refl)

    pub children-halved : (halved_nodes i).child_indices ≡ (ns i).child_indices
    children-halved = elsewhere (λ x. x.child_indices) (λ _. refl)

    leaf-halved :
        IsLeaf (g.lo i) (g.hi i) c (ns i)
        → IsLeaf (halved_shape.lo i) (halved_shape.hi i) c (halved_nodes i)
    leaf-halved n = record {
      size = size-halved ∙ n.size ∙ ap length (sym keys-halved);
      values = ap length values-halved ∙ n.values ∙ ap length (sym keys-halved);
      ascending = rw (keys-halved, lo-halved, hi-halved) n.ascending;
      entry = λ j above below.
          rw (keys-halved, values-halved)
            (n.entry j (omega (arith, lo-halved, above)) (omega (arith, hi-halved, below)));
    }

    Kid-halved : (d a b : ℕ) → Kid g i d a b → Kid halved_shape i d a b
    Kid-halved d a b kid =
        let new = not_new d (s.attached-live d kid.attached) in
        record {
          attached = kid.attached;
          lo = rw new kid.lo;
          outer = rw new kid.outer;
          height = rw (new, not_new i h) kid.height;
          parent = rw (stays i d a b (λ e. ground (arith, nat_eq_iff p i)) kid) kid.parent;
        }

    Inner-halved : IsInner g i (ns i) → IsInner halved_shape i (halved_nodes i)
    Inner-halved n = record {
      size = size-halved ∙ n.size ∙ ap length (sym keys-halved);
      kids = rw (keys-halved, children-halved, lo-halved, hi-halved) (Kids-map Kid-halved n.kids);
    }

  pub leaves-halved :
      (i : ℕ)
      → halved_shape.live i ≡ true
      → (halved_nodes i).type ≡ leaf
      → IsLeaf (halved_shape.lo i) (halved_shape.hi i) c (halved_nodes i)
  leaves-halved i h t = elim (Bool-cases (nat_eq len i)) [
    | inl new ↦ absurd (ground (arith, rw new at t))
    | inr other ↦
        let lives = live-halved i h other in
        let t' : (ns i).type ≡ leaf = sym (type-halved i lives) ∙ t in
        elim (Bool-cases (nat_eq p i)) [
          | inl here ↦ absurd (ground (arith, is, t', nat_eq_iff p i))
          | inr away ↦ leaf-halved i lives away (s.leaves i lives t')
        ]
  ]

  pub here_p : nat_eq p p ≡ true
  here_p = (nat_eq_iff p p).1 refl

  pub here_len : nat_eq len len ≡ true
  here_len = (nat_eq_iff len len).1 refl

  pub new_p : nat_eq len p ≡ false
  new_p = not_new p live

  p_new : nat_eq p len ≡ false
  p_new = ground (arith, nat_eq_iff p len, s.bound p live)

  Inner-lower : IsInner halved_shape p (lower_half mid (ns p))
  Inner-lower = record {
    size = omega (arith, length-take mid (ns p).keys);
    kids = rw (new_p, here_p) (Kids-map kid-lower lower);
  }
    where
      kid-lower : (d a b : ℕ) → (Kid g p d a b × (a < promoted)) → Kid halved_shape p d a b
      kid-lower d a b (kid, below) =
          let new = not_new d (s.attached-live d kid.attached) in
          let out : member d moved ≡ false = elim (Bool-cases (member d moved)) [
            | inl m ↦
                let (a', b', there) = moved-child d m in
                absurd (omega (arith, below, kid.lo, there.0.lo, there.1))
            | inr out ↦ out
          ] in
          record {
            attached = kid.attached;
            lo = rw new kid.lo;
            outer = rw new kid.outer;
            height = rw (new, new_p) kid.height;
            parent = rw out kid.parent;
          }

  Inner-upper : IsInner halved_shape len (upper_half mid len (ns p))
  Inner-upper = record { size = refl; kids = rw here_len (Kids-map kid-upper (Kids-members upper)) }
    where
      kid-upper :
          (d a b : ℕ)
          → ((Kid g p d a b × (promoted ≤ a)) × (member d moved ≡ true))
          → Kid halved_shape len d a b
      kid-upper d a b ((kid, above), m) =
          let new = not_new d (s.attached-live d kid.attached) in
          record {
            attached = kid.attached;
            lo = rw new kid.lo;
            outer = rw new kid.outer;
            height = rw (new, here_len) kid.height;
            parent = rw m refl;
          }

  pub at_len : halved_nodes len ≡ upper_half mid len (ns p)
  at_len =
      update_self len (upper_half mid len (ns p))
        (update p (lower_half mid (ns p)) (below_new len moved ns))

  pub at_p : halved_nodes p ≡ lower_half mid (ns p)
  at_p = rw (new_p, here_p) refl

  pub inner-halved :
      (i : ℕ)
      → halved_shape.live i ≡ true
      → (halved_nodes i).type ≡ internal
      → IsInner halved_shape i (halved_nodes i)
  inner-halved i h t = elim (Bool-cases (nat_eq len i)) [
    | inl new ↦ let at : len ≡ i = (nat_eq_iff len i).0 new in rw (← at, at_len) Inner-upper
    | inr other ↦
        let lives = live-halved i h other in
        elim (Bool-cases (nat_eq p i)) [
          | inl here ↦ let at : p ≡ i = (nat_eq_iff p i).0 here in rw (← at, at_p) Inner-lower
          | inr away ↦ Inner-halved i lives away (s.inner i lives (sym (type-halved i lives) ∙ t))
        ]
  ]
