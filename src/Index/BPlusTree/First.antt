-- ===== src/Index/BPlusTree/First.antt =====
-- The first entry of a tree (`insert` of src/index/BPlusTree.cpp with no root).
use my_db.Base.{
  ℕ, suc, ◌<◌, ◌≡◌, refl, sym, true, none, [], ◌∷◌, arith, length, length-set, length-append,
  nat_eq, nat_eq_iff,
}
use my_db.Common.Rid.{Rid}
use my_db.Index.BPlusTree.{BPlusNode, BPlusTree, leaf, node_at, new_node, allocate_node}
use my_db.Index.BPlusTree.Insertion.{insert_first}
use my_db.Index.BPlusTree.Shape.{
  Shape, Content, Nodes, top, IsLeaf, IsTree, IsSound, tree, entry_of,
}
use my_db.Index.BPlusTree.Update.{update}
use my_db.Index.BPlusTree.Leaves.{extend}
use my_db.Index.BPlusTree.Agreement.{put-allocated}
use my_db.Index.BPlusTree.Calls.{add_one, same-IsTree}

abbrev as_first : ℕ → Rid → BPlusNode → BPlusNode
as_first key value n = record n { is_root = true; keys = key ∷ []; values = value ∷ []; size = 1 }

abbrev first_shape : ℕ → Shape
first_shape len = record {
  live = nat_eq len;
  attached = nat_eq len;
  lo = λ _. 0;
  hi = λ _. top;
  outer = λ _. top;
  height = λ _. 0;
  parent = λ _. 0;
}

module _ (c : Content) (key : ℕ) (value : Rid) (nothing : (j : ℕ) → c j ≡ none)
    (lt : key < top) where
  first-IsLeaf :
      (len : ℕ) → IsLeaf 0 top (extend key value c) (as_first key value (new_node leaf len))
  unfolding entry_of
  first-IsLeaf len = record {
    size = refl;
    values = refl;
    ascending = (omega arith, lt);
    entry = λ j _ _. ground (arith, nothing j, nat_eq_iff j key, nat_eq_iff key j);
  }

  module _ (len : ℕ) (ns : Nodes) where
    abbrev first_nodes : Nodes
    first_nodes = update len (as_first key value (new_node leaf len)) ns

    at_first :
        (i : ℕ) → nat_eq len i ≡ true → first_nodes i ≡ as_first key value (new_node leaf len)
    at_first i h = rw h refl

    first-IsTree : IsTree (first_shape len) (extend key value c) (suc len) len first_nodes
    first-IsTree = record {
      bound = λ i h. omega (arith, (nat_eq_iff len i).0 h);
      leaves = λ i h _. rw h (first-IsLeaf len);
      inner = λ i h t. absurd (ground (arith, rw h at t));
      place = λ i h flag. absurd (ground (arith, rw h at flag));
      chain = λ i h t. rw h refl;
      apart = λ i j u v _ _ ne. absurd (ne (ground (arith, nat_eq_iff len i, nat_eq_iff len j)));
      attached-live = λ i h. h;
      root_attached = (nat_eq_iff len len).1 refl;
      root_lo = refl;
      root_outer = refl;
      root_height = omega arith;
      root_highest = λ i h. omega arith;
      root_flag = rw ((nat_eq_iff len len).1 refl) refl;
      root_only = λ i h flag. sym ((nat_eq_iff len i).0 h);
    }

  pub insert_first-IsSound :
      (t : BPlusTree) → IsSound (extend key value c) (insert_first key value t)
  unfolding insert_first allocate_node
  insert_first-IsSound t =
      tree (first_shape (length t.nodes)) (length t.nodes) refl
        (same-IsTree (simp (length-set, length-append, add_one (length t.nodes)))
          (put-allocated leaf (as_first key value) t) (first-IsTree (length t.nodes) (node_at t)))
        (record { attached = λ i h. h; outer = λ i. refl })
