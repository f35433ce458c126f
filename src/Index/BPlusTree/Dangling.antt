-- ===== src/Index/BPlusTree/Dangling.antt =====
-- Insertions in a tree of src/index/BPlusTree.cpp whose vector has room for one node when it has one:
-- the first split of a leaf uses a dangling reference.
use my_db.Base.{
  ℕ, suc, ◌+◌, ◌≤◌, ◌<◌, ◌≡◌, refl, ap, ◌∙◌, true, false, none, some, List, [], ◌∷◌, arith, length,
  length-set, member, ltb, nat_eq_iff, Bool-cases, inl, inr,
}
use my_db.Common.Rid.{Rid}
use my_db.Index.BPlusTree.{
  BPlusTree, new_tree, node_at, allocate_node, find_leaf, leaf_entry, max_leaf_keys, search,
}
use my_db.Index.BPlusTree.Insertion.{
  with_entry, insert_into_leaf, split_leaf_and_insert, insert_first, insert,
}
use my_db.Index.BPlusTree.Shape.{Content, top, IsSound, empty}
use my_db.Index.BPlusTree.Searching.{find_leaf-end, search-IsSound}
use my_db.Index.BPlusTree.Update.{node_at-put_node}
use my_db.Index.BPlusTree.Inserting.{insert-IsSound, with_new}
use my_db.Index.BPlusTree.Building.{IsBelow, insert_all, tree_of}

-- The keys of the entries.
abbrev pub keys_of : List (ℕ × Rid) → List ℕ
keys_of [] = []
keys_of ((key, value) ∷ es) = key ∷ keys_of es

-- A tree of one leaf with `k` entries, in a vector that is full.
record OneLeaf (c : Content) (k : ℕ) (t : BPlusTree) : Type 0 where
  sound : IsSound c t
  one : length t.nodes ≡ 1
  full : t.capacity ≡ 1
  root : t.root_idx ≡ some 0
  size : (node_at t 0).size ≡ k

module _ {c : Content} {k : ℕ} (t : BPlusTree) (h : OneLeaf c k t) (key : ℕ) (lt : key < top) where
  found-one : find_leaf key t ≡ some 0
  found-one = elim (find_leaf-end c t key h.sound lt) [
    | inl (no_root, _) ↦ absurd (ground (arith, no_root, h.root))
    | inr (i, found, _, below) ↦
        let here : i ≡ 0 = omega (arith, below, h.one) in found ∙ ap some here
  ]

  entry-one : leaf_entry key (node_at t 0) ≡ c key
  unfolding search
  entry-one = rw (found-one, search) at (search-IsSound c t key h.sound lt)

  module _ (value : Rid) (missing : c key ≡ none) where
    insert-dangling : t.order ≤ k + 1 → insert key value t ≡ none
    unfolding insert split_leaf_and_insert
    insert-dangling fill =
        let absent = entry-one ∙ missing in
        let no_room : ltb (node_at t 0).size (max_leaf_keys t) ≡ false =
          ground (arith, h.size, fill) in
        let stuck : ltb (length t.nodes) t.capacity ≡ false = ground (arith, h.one, h.full) in
        rw (found-one, absent, no_room, stuck, insert) refl

    abbrev grown : BPlusTree
    grown = record (insert_into_leaf 0 key value t) { entry_count = t.entry_count + 1 }

    has_space :
        k + 1 < t.order → (i : ℕ) → find_leaf key t ≡ some i → (node_at t i).size < max_leaf_keys t
    has_space room i found =
        let here : 0 ≡ i = ground (arith, found-one, found) in
        rw (← here) (omega (arith, h.size, room))

    insert-grown : k + 1 < t.order → insert key value t ≡ some (true, grown)
    unfolding insert
    insert-grown room =
        let absent = entry-one ∙ missing in
        let space : ltb (node_at t 0).size (max_leaf_keys t) ≡ true =
          ground (arith, h.size, room) in
        rw (found-one, absent, space, insert) refl

    grown-size : (node_at grown 0).size ≡ suc k
    unfolding insert_into_leaf with_entry
    grown-size =
        let at =
          node_at-put_node 0 0 (with_entry key value (node_at t 0)) t (omega (arith, h.one)) in
        ap (λ n. n.size) at ∙ omega (arith, h.size)

    grown-one : length grown.nodes ≡ 1
    unfolding insert_into_leaf
    grown-one = length-set t.nodes 0 (with_entry key value (node_at t 0)) ∙ h.one

    grown-rest : (grown.capacity ≡ 1) × (grown.root_idx ≡ some 0) × (grown.order ≡ t.order)
    unfolding insert_into_leaf
    grown-rest = (h.full, h.root, refl)

    grown-IsSound : k + 1 < t.order → IsSound (with_new key value c) grown
    grown-IsSound room =
        let n =
          insert-IsSound c t key value h.sound lt (omega (arith, room)) (inl (has_space room)) in
        let same : n.after ≡ grown = ground (arith, n.ends, insert-grown room) in rw same at n.sound

    insert-OneLeaf :
        k + 1 < t.order
        → (t' : BPlusTree) × (tree_of (insert key value t) ≡ some t')
          × OneLeaf (with_new key value c) (suc k) t'
          × (t'.order ≡ t.order)
    insert-OneLeaf room =
        let (full, root, order) = grown-rest in
        (
          grown,
          rw (insert-grown room) refl,
          record {
            sound = grown-IsSound room;
            one = grown-one;
            full = full;
            root = root;
            size = grown-size;
          },
          order,
        )

-- No key stands twice.
abbrev pub IsOnce : List (ℕ × Rid) → Type 0
IsOnce [] = Unit
IsOnce ((key, value) ∷ es) = (member key (keys_of es) ≡ false) × IsOnce es

insert_all-none : (es : List (ℕ × Rid)) → insert_all es none ≡ none
insert_all-none [] = refl
insert_all-none (e ∷ es) = refl

insert_all-OneLeaf :
    (es : List (ℕ × Rid)) {c : Content} {k : ℕ} (t : BPlusTree)
    → OneLeaf c k t
    → IsBelow es
    → IsOnce es
    → ((j : ℕ) → member j (keys_of es) ≡ true → c j ≡ none)
    → k < t.order
    → t.order ≤ k + length es
    → insert_all es (some t) ≡ none
unfolding member with_new
insert_all-OneLeaf [] t h below once absent room many = absurd (omega arith)
insert_all-OneLeaf ((key, value) ∷ es) {c} {k} t h (lt, below) (apart, once) absent room many =
    let missing : c key ≡ none = absent key (ground (arith, nat_eq_iff key key)) in
    elim (Bool-cases (ltb (k + 1) t.order)) [
      | inr fill ↦
          let stuck = insert-dangling t h key lt value missing (ground (arith, fill)) in
          ap (λ o. insert_all es (tree_of o)) stuck ∙ insert_all-none es
      | inl more ↦
          let (t', next, one, order) =
            insert-OneLeaf t h key lt value missing (ground (arith, more)) in
          ap (insert_all es) next
          ∙ insert_all-OneLeaf es t' one below once
              (λ j here.
                ground (arith, missing, absent j, nat_eq_iff key j, nat_eq_iff j key, apart, here))
              (ground (arith, more, order)) (omega (arith, many, order))
    ]

first-OneLeaf :
    (grow : ℕ → ℕ) (order key : ℕ) (value : Rid)
    → grow 0 ≡ 1
    → key < top
    → 1 < order
    → (t : BPlusTree) × (tree_of (insert key value (new_tree grow order)) ≡ some t)
      × OneLeaf (with_new key value (λ _. none)) 1 t
      × (t.order ≡ order)
unfolding insert find_leaf insert_first allocate_node
first-OneLeaf grow order key value one lt enough =
    let n =
      insert-IsSound (λ _. none) (new_tree grow order) key value (empty refl (λ _. refl)) lt enough
        (inr (omega arith)) in
    let t = insert_first key value (new_tree grow order) in
    let same : n.after ≡ t = ground (arith, n.ends) in
    (
      t,
      refl,
      record { sound = rw same at n.sound; one = refl; full = one; root = refl; size = refl },
      refl,
    )

-- In a vector that has room for one element after the first is added, the insertions of as many keys
-- as the order, all different and below 2 ^ 32, in an empty tree of order 2 or more end with the use of
-- a dangling reference.
pub insert_all-dangling :
    (grow : ℕ → ℕ) (order : ℕ) (es : List (ℕ × Rid))
    → grow 0 ≡ 1
    → 1 < order
    → order ≤ length es
    → IsBelow es
    → IsOnce es
    → insert_all es (some (new_tree grow order)) ≡ none
unfolding member with_new
insert_all-dangling grow order [] one enough many below once = absurd (omega arith)
insert_all-dangling grow order ((key, value) ∷ es) one enough many (lt, below) (apart, once) =
    let (t, next, first, same) = first-OneLeaf grow order key value one lt enough in
    ap (insert_all es) next
    ∙ insert_all-OneLeaf es t first below once
        (λ j here. ground (arith, nat_eq_iff key j, nat_eq_iff j key, apart, here))
        (omega (arith, enough, same)) (omega (arith, many, same))
