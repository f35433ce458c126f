-- ===== src/Index/BPlusTree/Climbing.antt =====
-- `insertIntoParent` of src/index/BPlusTree.cpp, up from a node that was split.
use my_db.Base.{
  ℕ, zero, suc, ◌+◌, ◌/◌, ◌≤◌, ◌<◌, ◌≡◌, refl, sym, ap, ◌∙◌, true, false, Option, none, some, arith,
  length, length-set, member, ltb, drop, nat_eq, nat_eq_iff, Bool-cases, inl, inr,
}
use my_db.Index.BPlusTree.{
  BPlusNode, BPlusTree, internal, node_at, put_node, allocate_node, max_internal_keys, has_capacity,
}
use my_db.Index.BPlusTree.Insertion.{
  key_at, or_zero, with_child, set_parent, grow_root, split_parts, split_internal,
  insert_into_parent,
}
use my_db.Index.BPlusTree.Shape.{Shape, Content, Nodes, IsTree, IsWhole, IsPending, IsSound, tree}
use my_db.Index.BPlusTree.Update.{update, length-put_node}
use my_db.Index.BPlusTree.Agreement.{
  child_of, put-agrees, lt-nat_eq, node_at-attach, node_at-grow_root,
}
use my_db.Index.BPlusTree.HalvesAgree.{node_at-split_parts}
use my_db.Index.BPlusTree.Attaching.{
  attached_shape, attached_nodes, place, inner, new_not_parent, height_parent,
}
use my_db.Index.BPlusTree.Attached.{attach-IsTree, attach-IsWhole}
use my_db.Index.BPlusTree.Growing.{grown_shape}
use my_db.Index.BPlusTree.Grown.{grown-IsTree, grown-IsWhole}
use my_db.Index.BPlusTree.InnerSplit.{halved_shape, halved_nodes, moved-lt}
use my_db.Index.BPlusTree.InnerHalves.{halved-IsTree, halved-IsPending, not_self}
use my_db.Index.BPlusTree.Calls.{
  same-IsTree, same-IsPending, length-grow_root, length-split_parts, order-split_parts,
  capacity-split_parts, root_idx-split_parts, halves-agree, with_child-size, with_child-keys,
  with_child-type,
}

module _ (t : BPlusTree) {g : Shape} {c : Content} {r l key new : ℕ} (root : t.root_idx ≡ some r)
    (s : IsTree g c (length t.nodes) r (node_at t)) (w : IsPending g (node_at t) l key new) where
  left-lt : l < length t.nodes
  left-lt = s.bound l (s.attached-live l w.left_attached)

  right-lt : new < length t.nodes
  right-lt = s.bound new w.right_live

  pub grow_root-IsSound : (node_at t l).is_root ≡ true → IsSound c (grow_root l key new t)
  unfolding grow_root allocate_node
  grow_root-IsSound flag =
      tree (grown_shape s w flag) (length t.nodes) refl
        (same-IsTree (length-grow_root l key new t)
          (node_at-grow_root l key new t left-lt right-lt
            (ground (arith, nat_eq_iff l new, w.left_attached, w.right_attached)))
          (grown-IsTree s w flag))
        (grown-IsWhole s w flag)

  module _ (free : (node_at t l).is_root ≡ false) where
    abbrev p : ℕ
    p = g.parent l

    p-lt : p < length t.nodes
    p-lt = s.bound p (place s w free).live

    p_new : nat_eq p new ≡ false
    p_new = ground (arith, nat_eq_iff p new, nat_eq_iff new p, new_not_parent s w free)

    pub parent_of : or_zero (node_at t l).parent_idx ≡ p
    parent_of = rw ((place s w free).pointer) refl

    pub attach-IsSound :
        IsSound c (set_parent p new (put_node p (with_child key new (node_at t p)) t))
    attach-IsSound =
        tree (attached_shape s w free) r root
          (same-IsTree (simp length-set) (node_at-attach p key new t p-lt right-lt p_new)
            (attach-IsTree s w free))
          (attach-IsWhole s w free)

    -- The parent with the key, as `splitInternal` has it.
    abbrev t₀ : BPlusTree
    t₀ = set_parent p new t

    t₀-at : (x : ℕ) → node_at t₀ x ≡ update new (child_of p (node_at t new)) (node_at t) x
    t₀-at =
        put-agrees new (child_of p (node_at t new)) (child_of p (node_at t new)) t (node_at t)
          right-lt refl (λ _. refl)

    abbrev full : BPlusNode
    full = with_child key new (node_at t₀ p)

    abbrev mid : ℕ
    mid = full.size / 2

    abbrev ns : Nodes
    ns = attached_nodes s w free

    p₀ : node_at t₀ p ≡ node_at t p
    p₀ = t₀-at p ∙ rw (new_not_parent s w free) refl

    at_p : ns p ≡ with_child key new (node_at t p)
    at_p = rw (new_not_parent s w free, (nat_eq_iff p p).1 refl) refl

    full-at : full ≡ ns p
    full-at = ap (with_child key new) p₀ ∙ sym at_p

    others-at : (x : ℕ) → nat_eq p x ≡ false → node_at t₀ x ≡ ns x
    others-at x other = t₀-at x ∙ rw other refl

    mid-lt : mid < length (ns p).keys
    mid-lt = rw (← full-at) (
        omega (
          arith,
          with_child-size key new (node_at t₀ p),
          with_child-keys key new (node_at t₀ p),
          (inner s w free).size,
          ap (λ n. n.size) p₀,
          ap (λ n. length n.keys) p₀,
        ))

    is_inner : (ns p).type ≡ internal
    is_inner = ap (λ n. n.type) at_p ∙ with_child-type key new (node_at t p) ∙ (place s w free).type

    s₀ : IsTree (attached_shape s w free) c (length t.nodes) r ns
    s₀ = attach-IsTree s w free

    w₀ : IsWhole (attached_shape s w free)
    w₀ = attach-IsWhole s w free

    size₀ : length t₀.nodes ≡ length t.nodes
    size₀ = length-put_node new (child_of p (node_at t new)) t

    abbrev t' : BPlusTree
    t' = (split_parts p key new t₀).2

    moved-at : drop (suc mid) full.child_indices ≡ drop (suc mid) (ns p).child_indices
    moved-at = ap (λ n. drop (suc mid) n.child_indices) full-at

    moved-below : (x : ℕ) → member x (drop (suc mid) full.child_indices) ≡ true → x < length t.nodes
    moved-below x m =
        moved-lt s₀ w₀ p mid (place s w free).live is_inner mid-lt x
          (ap (member x) (sym moved-at) ∙ m)

    p-out : member p (drop (suc mid) full.child_indices) ≡ false
    p-out = ap (member p) moved-at ∙ not_self s₀ w₀ p mid (place s w free).live is_inner mid-lt

    agree :
        (x : ℕ) → node_at t' x ≡ halved_nodes s₀ w₀ p mid (place s w free).live is_inner mid-lt x
    agree x =
        node_at-split_parts p key new t₀ (omega (arith, size₀, p-lt))
          (λ y m. omega (arith, size₀, moved-below y m)) p-out x
        ∙ halves-agree p mid (length t.nodes) (length t₀.nodes) full ns (node_at t₀) size₀ full-at
            others-at x

    split-root : t'.root_idx ≡ some r
    split-root = root_idx-split_parts p key new t₀ ∙ root

    split-length : length t'.nodes ≡ suc (length t.nodes)
    split-length = length-split_parts p key new t₀ ∙ ap suc size₀

    split-IsTree :
        IsTree
          (halved_shape s₀ w₀ p mid (place s w free).live is_inner mid-lt)
          c
          (length t'.nodes)
          r
          (node_at t')
    split-IsTree =
        same-IsTree split-length agree
          (halved-IsTree s₀ w₀ p mid (place s w free).live is_inner mid-lt)

    key_up : (split_parts p key new t₀).0 ≡ key_at (ns p).keys mid
    unfolding split_parts
    key_up = ap (λ n. key_at n.keys mid) full-at

    new_up : (split_parts p key new t₀).1 ≡ length t.nodes
    unfolding split_parts allocate_node
    new_up = size₀

    split-IsPending :
        IsPending
          (halved_shape s₀ w₀ p mid (place s w free).live is_inner mid-lt)
          (node_at t')
          p
          (split_parts p key new t₀).0
          (split_parts p key new t₀).1
    split-IsPending =
        same-IsPending key_up new_up agree
          (halved-IsPending s₀ w₀ p mid (place s w free).live is_inner mid-lt)

    split-height :
        (halved_shape s₀ w₀ p mid (place s w free).live is_inner mid-lt).height r ≡ g.height r
    split-height =
        rw (lt-nat_eq r (length t.nodes) (s.bound r (s.attached-live r s.root_attached))) refl

    split-height_p :
        (halved_shape s₀ w₀ p mid (place s w free).live is_inner mid-lt).height p ≡ suc (g.height l)
    split-height_p = rw (lt-nat_eq p (length t.nodes) p-lt) (sym (height_parent s w free))

    module _ (room : length t.nodes + g.height r ≤ t.capacity + g.height l) where
      has_room : has_capacity t₀ ≡ true
      has_room =
          ground
            (arith, room, size₀, height_parent s w free, s.root_highest p (place s w free).live)

      split-capacity : t'.capacity ≡ t.capacity
      split-capacity = capacity-split_parts p key new t₀ has_room

-- `insertIntoParent` below a node `p` that is not the root.
pub climb : ℕ → ℕ → ℕ → ℕ → BPlusTree → Option BPlusTree
climb fuel p key right t = elim (ltb (node_at t p).size (max_internal_keys t)) [
  | true ↦ some (set_parent p right (put_node p (with_child key right (node_at t p)) t))
  | false ↦ elim (split_internal p key right (set_parent p right t)) [
    | none ↦ none
    | some (promoted, new_idx, t') ↦ insert_into_parent fuel p promoted new_idx t'
  ]
]

pub at-climb :
    (fuel left key right p : ℕ) (t : BPlusTree)
    → (node_at t left).is_root ≡ false
    → or_zero (node_at t left).parent_idx ≡ p
    → insert_into_parent (suc fuel) left key right t ≡ climb fuel p key right t
unfolding insert_into_parent climb
at-climb fuel left key right p t free up =
    rw (free, insert_into_parent) (ap (λ q. climb fuel q key right t) up)

pub climb-room :
    (fuel p key right : ℕ) (t : BPlusTree)
    → ltb (node_at t p).size (max_internal_keys t) ≡ true
    → climb fuel p key right t
      ≡ some (set_parent p right (put_node p (with_child key right (node_at t p)) t))
unfolding climb
climb-room fuel p key right t room = rw (room, climb) refl

pub climb-full :
    (fuel p key right : ℕ) (t : BPlusTree)
    → ltb (node_at t p).size (max_internal_keys t) ≡ false
    → has_capacity (set_parent p right t) ≡ true
    → let half = split_parts p key right (set_parent p right t) in
      climb fuel p key right t ≡ insert_into_parent fuel p half.0 half.1 half.2
unfolding climb split_internal
climb-full fuel p key right t fill room = rw (fill, room, climb) refl

-- The call ends with a sound tree of the same order.
pub record Ends (c : Content) (o : ℕ) (result : Option BPlusTree) : Type 0 where
  pub after : BPlusTree
  pub ends : result ≡ some after
  pub sound : IsSound c after
  pub order : after.order ≡ o

some-Ends :
    {c : Content} {order : ℕ} {result : Option BPlusTree} (t : BPlusTree)
    → result ≡ some t
    → IsSound c t
    → t.order ≡ order
    → Ends c order result
some-Ends t e sound same = record { after = t; ends = e; sound = sound; order = same }

order-grow_root :
    (left key right : ℕ) (t : BPlusTree) → (grow_root left key right t).order ≡ t.order
unfolding grow_root allocate_node
order-grow_root left key right t = refl

-- The whole way up, from a node whose new half has no place yet, where there is room for a node at
-- every height above it.
pub insert_into_parent-Ends :
    (fuel : ℕ) (t : BPlusTree) {g : Shape} {c : Content} {r l key new : ℕ}
    → t.root_idx ≡ some r
    → IsTree g c (length t.nodes) r (node_at t)
    → IsPending g (node_at t) l key new
    → g.height r < g.height l + fuel
    → length t.nodes + g.height r ≤ t.capacity + g.height l
    → Ends c t.order (insert_into_parent fuel l key new t)
unfolding insert_into_parent
insert_into_parent-Ends zero t {l = l} root s w lt room =
    absurd (omega (arith, lt, s.root_highest l (s.attached-live l w.left_attached)))
insert_into_parent-Ends (suc fuel) t {g} {c} {l = l} {key = key} {new = new} root s w lt room =
    elim (Bool-cases (node_at t l).is_root) [
      | inl flag ↦
          some-Ends (grow_root l key new t) (rw (flag, insert_into_parent) refl)
            (grow_root-IsSound t root s w flag) (order-grow_root l key new t)
      | inr free ↦
          let q = g.parent l in
          let step = at-climb fuel l key new q t free (parent_of t root s w free) in
          elim (Bool-cases (ltb (node_at t q).size (max_internal_keys t))) [
            | inl space ↦
                some-Ends (set_parent q new (put_node q (with_child key new (node_at t q)) t))
                  (step ∙ climb-room fuel q key new t space) (attach-IsSound t root s w free) refl
            | inr fill ↦
                let old = has_room t root s w free room in
                let half = t' t root s w free in
                let up =
                  insert_into_parent-Ends fuel half (split-root t root s w free)
                    (split-IsTree t root s w free) (split-IsPending t root s w free)
                    (omega
                      (arith, lt, split-height t root s w free, split-height_p t root s w free))
                    (omega (
                      arith,
                      room,
                      split-height t root s w free,
                      split-height_p t root s w free,
                      split-length t root s w free,
                      split-capacity t root s w free room,
                    )) in
                some-Ends up.after (step ∙ climb-full fuel q key new t fill old ∙ up.ends) up.sound
                  (up.order ∙ order-split_parts q key new (t₀ t root s w free))
          ]
    ]
