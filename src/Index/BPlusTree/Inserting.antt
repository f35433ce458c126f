-- ===== src/Index/BPlusTree/Inserting.antt =====
-- `insert` of src/index/BPlusTree.cpp on a sound tree.
use my_db.Base.{
  ℕ, suc, ◌+◌, ◌/◌, ◌≤◌, ◌<◌, ◌≡◌, ◌⊎◌, refl, sym, ap, ◌∙◌, subst, if◌then◌else◌, Bool, true, false,
  Option, none, some, arith, length, length-set, length-append, ltb, nat_eq, nat_eq_iff, Bool-cases,
  Option-cases, inl, inr,
}
use my_db.Common.Rid.{Rid}
use my_db.Index.BPlusTree.{
  BPlusNode, BPlusTree, leaf, node_at, allocate_node, find_leaf, leaf_entry, max_leaf_keys,
  has_capacity,
}
use my_db.Index.BPlusTree.Insertion.{
  key_at, lower_bound, with_entry, insert_into_leaf, split_leaf, split_leaf_and_insert,
  insert_first, insert,
}
use my_db.Index.BPlusTree.Entries.{length-insert_at, key_at-drop}
use my_db.Index.BPlusTree.Shape.{
  Shape, Content, Nodes, top, IsTree, IsWhole, IsSound, empty, tree, leaf_entry-IsLeaf,
}
use my_db.Index.BPlusTree.Searching.{LeafOf, find_leaf-LeafOf}
use my_db.Index.BPlusTree.Update.{update, update_self, node_at-put_node, length-put_node}
use my_db.Index.BPlusTree.Leaves.{extend, with_entry-IsLeaf, Replaces, replace-IsTree}
use my_db.Index.BPlusTree.LeafSplit.{left_half, right_half, split_nodes}
use my_db.Index.BPlusTree.LeafHalves.{split-IsTree, split-IsPending}
use my_db.Index.BPlusTree.Agreement.{lt-nat_eq}
use my_db.Index.BPlusTree.HalvesAgree.{leaf_halves, node_at-leaf_halves}
use my_db.Index.BPlusTree.First.{insert_first-IsSound}
use my_db.Index.BPlusTree.Climbing.{Ends, insert_into_parent-Ends}
use my_db.Index.BPlusTree.Calls.{add_one, same-IsTree, same-IsPending}

with_entry-size :
    (key : ℕ) (value : Rid) (n : BPlusNode) → (with_entry key value n).size ≡ n.size + 1
unfolding with_entry
with_entry-size key value n = refl

with_entry-keys :
    (key : ℕ) (value : Rid) (n : BPlusNode)
    → length (with_entry key value n).keys ≡ suc (length n.keys)
unfolding with_entry
with_entry-keys key value n = length-insert_at (lower_bound key n.keys) key n.keys

taken : {b : Bool} {x : Option BPlusTree} → b ≡ true → (if b then x else none) ≡ x
taken {b = b} {x} e = rw e refl

-- The halves of the leaf `full` in the place of node `i`.
leaf_halves-agree :
    (i split len : ℕ) (full m : BPlusNode) (ns : Nodes)
    → m ≡ full
    → (x : ℕ)
    → update len (right_half split len full) (update i (left_half split len full) ns) x
      ≡ update len (right_half split len m) (update i (left_half split len m) (update i full ns)) x
leaf_halves-agree i split len full m ns e x = elim (Bool-cases (nat_eq i x)) [
  | inl same ↦ rw (e, same) refl
  | inr other ↦ rw (e, other) refl
]

module _ (t : BPlusTree) {g : Shape} {c : Content} {r key i : ℕ} (value : Rid)
    (root : t.root_idx ≡ some r) (s : IsTree g c (length t.nodes) r (node_at t)) (w : IsWhole g)
    (at : LeafOf g t key i) (absent : leaf_entry key (node_at t i) ≡ none) where
  abbrev full : BPlusNode
  full = with_entry key value (node_at t i)

  i-lt : i < length t.nodes
  i-lt = s.bound i at.live

  full-Replaces : Replaces g (extend key value c) (node_at t) i full
  unfolding with_entry
  full-Replaces = record {
    live = at.live;
    old_type = at.type;
    type = refl;
    is_root = refl;
    parent = refl;
    children = refl;
    next = refl;
    is_leaf =
        with_entry-IsLeaf (g.lo i) (g.hi i) key value c (node_at t i) (s.leaves i at.live at.type)
          at.above at.below absent;
  }

  full-IsTree : IsTree g (extend key value c) (length t.nodes) r (update i full (node_at t))
  full-IsTree =
      replace-IsTree s i full full-Replaces
        (λ j away. ground (arith, nat_eq_iff key j, at.above, at.below, away))

  pub insert_into_leaf-IsSound : IsSound (extend key value c) (insert_into_leaf i key value t)
  unfolding insert_into_leaf
  insert_into_leaf-IsSound =
      tree g r root
        (same-IsTree (length-put_node i full t) (λ x. node_at-put_node i x full t i-lt) full-IsTree)
        w

  module _ (enough : 1 < t.order) (fill : ltb (node_at t i).size (max_leaf_keys t) ≡ false) where
    abbrev split : ℕ
    split = (full.size + 1) / 2

    abbrev ns : Nodes
    ns = update i full (node_at t)

    abbrev len : ℕ
    len = length t.nodes

    at_i : ns i ≡ full
    at_i = update_self i full (node_at t)

    is_leaf : (ns i).type ≡ leaf
    is_leaf = ap (λ n. n.type) at_i ∙ full-Replaces.type ∙ at.type

    pos : 0 < split
    pos = omega (arith, with_entry-size key value (node_at t i))

    split-lt : split < length (ns i).keys
    split-lt = rw at_i (
        ground (
          arith,
          fill,
          with_entry-size key value (node_at t i),
          with_entry-keys key value (node_at t i),
          (s.leaves i at.live at.type).size,
        ))

    abbrev t₂ : BPlusTree
    t₂ = leaf_halves i split full t

    size₂ : length t₂.nodes ≡ suc len
    unfolding allocate_node
    size₂ = simp (length-set, length-append, add_one len)

    agree :
        (x : ℕ) → node_at t₂ x ≡ split_nodes full-IsTree w i split at.live is_leaf pos split-lt x
    agree x =
        node_at-leaf_halves i split full t i-lt x
        ∙ leaf_halves-agree i split len full (ns i) (node_at t) at_i x

    capacity₂ : has_capacity t ≡ true → t₂.capacity ≡ t.capacity
    unfolding allocate_node
    capacity₂ space = rw space refl

    root₂ : t₂.root_idx ≡ some r
    unfolding allocate_node
    root₂ = root

    split_leaf-Ends :
        has_capacity t ≡ true
        → len + len ≤ t.capacity
        → Ends (extend key value c) t.order (split_leaf_and_insert i key value t)
    unfolding split_leaf_and_insert split_leaf allocate_node
    split_leaf-Ends space room = subst (Ends (extend key value c) t.order) (sym (taken space)) (
        insert_into_parent-Ends (len + 1) t₂ root₂
          (same-IsTree size₂ agree
            (split-IsTree full-IsTree w i split at.live is_leaf pos split-lt))
          (same-IsPending (key_at-drop split full.keys ∙ ap (λ n. key_at n.keys split) (sym at_i))
            refl agree (split-IsPending full-IsTree w i split at.live is_leaf pos split-lt))
          (rw
            (lt-nat_eq r len (s.bound r (s.attached-live r s.root_attached)), lt-nat_eq i len i-lt)
            (omega (arith, s.root_height)))
          (rw
            (lt-nat_eq r len (s.bound r (s.attached-live r s.root_attached)), lt-nat_eq i len i-lt)
            (omega (arith, room, size₂, capacity₂ space, s.root_height))))

counted-IsSound :
    {c : Content} (n : ℕ) (t : BPlusTree) → IsSound c t → IsSound c (record t { entry_count = n })
counted-IsSound n t (empty none_yet nothing) = empty none_yet nothing
counted-IsSound n t (tree g r root s w) = tree g r root s w

-- What the map of entries is after an insertion: a key keeps the value that it has.
unfoldable pub with_new : ℕ → Rid → Content → Content
with_new key value c = elim (c key) [ some _ ↦ c | none ↦ extend key value c ]

unfoldable pub is_none {ℓ} : {A : Type ℓ} → Option A → Bool
is_none none = true
is_none (some _) = false

module _ (t : BPlusTree) (key : ℕ) (value : Rid) where
  insert-first : find_leaf key t ≡ none → insert key value t ≡ some (true, insert_first key value t)
  unfolding insert
  insert-first none_yet = rw (none_yet, insert) refl

  module _ (i : ℕ) (found : find_leaf key t ≡ some i) where
    insert-present :
        (v : Rid) → leaf_entry key (node_at t i) ≡ some v → insert key value t ≡ some (false, t)
    unfolding insert
    insert-present v there = rw (found, there, insert) refl

    insert-room :
        leaf_entry key (node_at t i) ≡ none
        → ltb (node_at t i).size (max_leaf_keys t) ≡ true
        → insert key value t
          ≡ some (true, record (insert_into_leaf i key value t) { entry_count = t.entry_count + 1 })
    unfolding insert
    insert-room missing room = rw (found, missing, room, insert) refl

    insert-split :
        leaf_entry key (node_at t i) ≡ none
        → ltb (node_at t i).size (max_leaf_keys t) ≡ false
        → (t' : BPlusTree) → split_leaf_and_insert i key value t ≡ some t'
        → insert key value t ≡ some (true, record t' { entry_count = t.entry_count + 1 })
    unfolding insert
    insert-split missing fill t' split = rw (found, missing, fill, split, insert) refl

-- The leaf that has the key in its range has room for an entry, or the vector has room for as many
-- nodes again as there are: no reference is held while the nodes are moved.
abbrev pub HasRoom : ℕ → BPlusTree → Type 0
HasRoom key t =
    ((i : ℕ) → find_leaf key t ≡ some i → (node_at t i).size < max_leaf_keys t)
    ⊎ (length t.nodes + length t.nodes ≤ t.capacity)

-- What an insertion gives in a tree with the entries of `c`.
pub record Inserted (key : ℕ) (value : Rid) (c : Content) (o : ℕ)
    (result : Option (Bool × BPlusTree)) : Type 0 where
  pub after : BPlusTree
  pub ends : result ≡ some (is_none (c key), after)
  pub sound : IsSound (with_new key value c) after
  pub order : after.order ≡ o

Inserted-new :
    {key : ℕ} {value : Rid} {c : Content} {order : ℕ} {result : Option (Bool × BPlusTree)}
    (t : BPlusTree)
    → c key ≡ none
    → result ≡ some (true, t)
    → IsSound (extend key value c) t
    → t.order ≡ order
    → Inserted key value c order result
unfolding with_new is_none
Inserted-new t missing e sound same = record {
  after = t;
  ends = rw missing e;
  sound = rw (missing, with_new) sound;
  order = same;
}

order-insert_first :
    (key : ℕ) (value : Rid) (t : BPlusTree) → (insert_first key value t).order ≡ t.order
unfolding insert_first allocate_node
order-insert_first key value t = refl

order-insert_into_leaf :
    (i key : ℕ) (value : Rid) (t : BPlusTree) → (insert_into_leaf i key value t).order ≡ t.order
unfolding insert_into_leaf
order-insert_into_leaf i key value t = refl

module _ (t : BPlusTree) {g : Shape} {c : Content} {r key i : ℕ} (value : Rid)
    (root : t.root_idx ≡ some r) (s : IsTree g c (length t.nodes) r (node_at t)) (w : IsWhole g)
    (at : LeafOf g t key i) (found : find_leaf key t ≡ some i) (enough : 1 < t.order)
    (room : HasRoom key t) (missing : c key ≡ none)
    (absent : leaf_entry key (node_at t i) ≡ none) where
  no_room :
      ltb (node_at t i).size (max_leaf_keys t) ≡ false
      → length t.nodes + length t.nodes ≤ t.capacity
  no_room fill = elim room [
    | inl space ↦ absurd (ground (arith, fill, space i found))
    | inr fits ↦ fits
  ]

  insert_missing-Inserted : Inserted key value c t.order (insert key value t)
  insert_missing-Inserted =
      let n = t.entry_count + 1 in
      elim (Bool-cases (ltb (node_at t i).size (max_leaf_keys t))) [
        | inl space ↦
            let t' = insert_into_leaf i key value t in
            Inserted-new (record t' { entry_count = n }) missing
              (insert-room t key value i found absent space)
              (counted-IsSound n t' (insert_into_leaf-IsSound t value root s w at absent))
              (order-insert_into_leaf i key value t)
        | inr fill ↦
            let fits = no_room fill in
            let space : has_capacity t ≡ true = ground (arith, fits, s.bound i at.live) in
            let h = split_leaf-Ends t value root s w at absent enough fill space fits in
            Inserted-new (record (h.after) { entry_count = n }) missing
              (insert-split t key value i found absent fill h.after h.ends)
              (counted-IsSound n h.after h.sound) h.order
      ]

-- Inserting a key below 2 ^ 32 in a sound tree of order 2 or more, where the leaf that has the key in
-- its range is not full or the vector of nodes has room for as many nodes again, ends: it says whether
-- the key was missing, and gives a sound tree of the same order, with the entries of the old one and,
-- where the key was missing, the new one, whatever nodes are split on the way.
pub insert-IsSound :
    (c : Content) (t : BPlusTree) (key : ℕ) (value : Rid)
    → IsSound c t
    → key < top
    → 1 < t.order
    → HasRoom key t
    → Inserted key value c t.order (insert key value t)
unfolding with_new is_none find_leaf
insert-IsSound c t key value (empty none_yet nothing) lt enough room =
    Inserted-new (insert_first key value t) (nothing key)
      (insert-first t key value (simp (none_yet, find_leaf)))
      (insert_first-IsSound c key value nothing lt t) (order-insert_first key value t)
insert-IsSound c t key value (tree g r root s w) lt enough room =
    let (i, found, at) = find_leaf-LeafOf t s w key root lt in
    let entry = leaf_entry-IsLeaf (s.leaves i at.live at.type) key at.above at.below in
    elim (Option-cases (c key)) [
      | inr (v, there) ↦ record {
        after = t;
        ends = rw there (insert-present t key value i found v (entry ∙ there));
        sound = rw (there, with_new) (tree g r root s w);
        order = refl;
      }
      | inl missing ↦
          insert_missing-Inserted t value root s w at found enough room missing (entry ∙ missing)
    ]
