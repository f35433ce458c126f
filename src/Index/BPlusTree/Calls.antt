-- ===== src/Index/BPlusTree/Calls.antt =====
-- What the calls of an insertion keep, and how a known vector of nodes takes the place of another
-- (src/index/BPlusTree.cpp).
use my_db.Base.{
  ℕ, suc, ◌+◌, ◌≡◌, refl, true, false, List, [], ◌∷◌, arith, length, length-set, length-append,
  fun_ext, drop, nat_eq, Bool-cases, inl, inr,
}
use my_db.Index.BPlusTree.{BPlusNode, BPlusTree, has_capacity, allocate_node}
use my_db.Index.BPlusTree.Insertion.{
  lower_bound, with_child, set_parent, set_parents, grow_root, split_parts,
}
use my_db.Index.BPlusTree.Shape.{Shape, Content, Nodes, IsTree, IsPending}
use my_db.Index.BPlusTree.Entries.{length-insert_at}
use my_db.Index.BPlusTree.Update.{update}
use my_db.Index.BPlusTree.Agreement.{length-set_parents}
use my_db.Index.BPlusTree.InnerSplit.{lower_half, upper_half, below_new}

pub same-IsTree :
    {g : Shape} {c : Content} {len len' r : ℕ} {ns ns' : Nodes}
    → len' ≡ len
    → ((x : ℕ) → ns' x ≡ ns x)
    → IsTree g c len r ns
    → IsTree g c len' r ns'
same-IsTree e d s = rw (fun_ext d, e) s

pub same-IsPending :
    {g : Shape} {l key key' new new' : ℕ} {ns ns' : Nodes}
    → key' ≡ key
    → new' ≡ new
    → ((x : ℕ) → ns' x ≡ ns x)
    → IsPending g ns l key new
    → IsPending g ns' l key' new'
same-IsPending u v d w = rw (fun_ext d, u, v) w

pub add_one : (n : ℕ) → n + 1 ≡ suc n
add_one n = omega arith

pub length-grow_root :
    (left key right : ℕ) (t : BPlusTree)
    → length (grow_root left key right t).nodes ≡ suc (length t.nodes)
unfolding grow_root allocate_node
length-grow_root left key right t = simp (length-set, length-append, add_one (length t.nodes))

pub length-split_parts :
    (p key right : ℕ) (t : BPlusTree)
    → length (split_parts p key right t).2.nodes ≡ suc (length t.nodes)
unfolding split_parts allocate_node
length-split_parts p key right t =
    simp (length-set, length-set_parents, length-append, add_one (length t.nodes))

root_idx-set_parents :
    (q : ℕ) (cs : List ℕ) (t : BPlusTree) → (set_parents q cs t).root_idx ≡ t.root_idx
unfolding set_parents
root_idx-set_parents q [] t = refl
root_idx-set_parents q (d ∷ cs) t = root_idx-set_parents q cs (set_parent q d t)

pub root_idx-split_parts :
    (p key right : ℕ) (t : BPlusTree) → (split_parts p key right t).2.root_idx ≡ t.root_idx
unfolding split_parts allocate_node
root_idx-split_parts p key right t = simp root_idx-set_parents

order-set_parents : (q : ℕ) (cs : List ℕ) (t : BPlusTree) → (set_parents q cs t).order ≡ t.order
unfolding set_parents
order-set_parents q [] t = refl
order-set_parents q (d ∷ cs) t = order-set_parents q cs (set_parent q d t)

pub order-split_parts :
    (p key right : ℕ) (t : BPlusTree) → (split_parts p key right t).2.order ≡ t.order
unfolding split_parts allocate_node
order-split_parts p key right t = simp order-set_parents

capacity-set_parents :
    (q : ℕ) (cs : List ℕ) (t : BPlusTree) → (set_parents q cs t).capacity ≡ t.capacity
unfolding set_parents
capacity-set_parents q [] t = refl
capacity-set_parents q (d ∷ cs) t = capacity-set_parents q cs (set_parent q d t)

-- A node that is added where there is room for it leaves the vector where it lies.
pub capacity-split_parts :
    (p key right : ℕ) (t : BPlusTree)
    → has_capacity t ≡ true
    → (split_parts p key right t).2.capacity ≡ t.capacity
unfolding split_parts allocate_node
capacity-split_parts p key right t room = simp (capacity-set_parents, room)

-- The halves of the node `full` among nodes that are those of `ns` but for it.
pub halves-agree :
    (p mid len len' : ℕ) (full : BPlusNode) (ns ns' : Nodes)
    → len' ≡ len
    → full ≡ ns p
    → ((x : ℕ) → nat_eq p x ≡ false → ns' x ≡ ns x)
    → (x : ℕ)
    → update len'
        (upper_half mid len' full)
        (update p (lower_half mid full) (below_new len' (drop (suc mid) full.child_indices) ns'))
        x
      ≡ update len
          (upper_half mid len (ns p))
          (update p
            (lower_half mid (ns p))
            (below_new len (drop (suc mid) (ns p).child_indices) ns))
          x
halves-agree p mid len len' full ns ns' k e d x = elim (Bool-cases (nat_eq p x)) [
  | inl same ↦ rw (k, e, same) refl
  | inr other ↦ rw (k, e, other, d x other) refl
]

pub with_child-size : (key right : ℕ) (n : BPlusNode) → (with_child key right n).size ≡ n.size + 1
unfolding with_child
with_child-size key right n = refl

pub with_child-keys :
    (key right : ℕ) (n : BPlusNode) → length (with_child key right n).keys ≡ suc (length n.keys)
unfolding with_child
with_child-keys key right n = length-insert_at (lower_bound key n.keys) key n.keys

pub with_child-type : (key right : ℕ) (n : BPlusNode) → (with_child key right n).type ≡ n.type
unfolding with_child
with_child-type key right n = refl
