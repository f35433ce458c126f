-- ===== src/Index/BPlusTree/Agreement.antt =====
-- The node vectors that src/index/BPlusTree.cpp builds, node by node, when it attaches, splits and
-- grows.
use my_db.Base.{
  ℕ, suc, ◌<◌, ◌≡◌, refl, ap, ◌∙◌, true, false, some, List, [], ◌∷◌, arith, length, member, nat_eq,
  nat_eq_iff, Bool-cases, inl, inr,
}
use my_db.Index.BPlusTree.{
  BPlusNode, BPlusTree, BNodeType, internal, node_at, put_node, new_node, allocate_node,
}
use my_db.Index.BPlusTree.Insertion.{with_child, set_parent, set_parents, grow_root}
use my_db.Index.BPlusTree.Shape.{Nodes}
use my_db.Index.BPlusTree.Update.{
  update, update_self, node_at-put_node, node_at-allocate, length-put_node, length-allocate,
}
use my_db.Index.BPlusTree.Growing.{root_node}
use my_db.Index.BPlusTree.InnerSplit.{below_new}

abbrev pub child_of : ℕ → BPlusNode → BPlusNode
child_of q n = record n { parent_idx = some q }

update-ap {ℓ} :
    {A : Type ℓ} {a b : A} {f h : ℕ → A} (i : ℕ)
    → a ≡ b
    → ((x : ℕ) → f x ≡ h x)
    → (x : ℕ) → update i a f x ≡ update i b h x
update-ap i e d x = elim (Bool-cases (nat_eq i x)) [
  | inl same ↦ rw same e
  | inr other ↦ rw other (d x)
]

-- A node put into a vector whose nodes are known.
pub put-agrees :
    (i : ℕ) (n m : BPlusNode) (t : BPlusTree) (ns : Nodes)
    → i < length t.nodes
    → n ≡ m
    → ((x : ℕ) → node_at t x ≡ ns x)
    → (x : ℕ) → node_at (put_node i n t) x ≡ update i m ns x
put-agrees i n m t ns lt e d x = node_at-put_node i x n t lt ∙ update-ap i e d x

pub length-set_parents :
    (q : ℕ) (cs : List ℕ) (t : BPlusTree) → length (set_parents q cs t).nodes ≡ length t.nodes
unfolding set_parents
length-set_parents q [] t = refl
length-set_parents q (d ∷ cs) t =
    length-set_parents q cs (set_parent q d t)
    ∙ length-put_node d (record (node_at t d) { parent_idx = some q }) t

below_new-cons :
    (q d : ℕ) (cs : List ℕ) (ns : Nodes) (x : ℕ)
    → below_new q cs (update d (record (ns d) { parent_idx = some q }) ns) x
      ≡ below_new q (d ∷ cs) ns x
unfolding member
below_new-cons q d cs ns x = elim (Bool-cases (nat_eq d x)) [
  | inl same ↦ elim (Bool-cases (member x cs)) [
    | inl m ↦ rw (same, m, (nat_eq_iff d x).0 same) refl
    | inr out ↦ rw (same, out, (nat_eq_iff d x).0 same) refl
  ]
  | inr other ↦ rw other refl
]

pub node_at-set_parents :
    (q : ℕ) (cs : List ℕ) (t : BPlusTree) (ns : Nodes)
    → ((x : ℕ) → member x cs ≡ true → x < length t.nodes)
    → ((x : ℕ) → node_at t x ≡ ns x)
    → (x : ℕ) → node_at (set_parents q cs t) x ≡ below_new q cs ns x
unfolding set_parents member
node_at-set_parents q [] t ns below d x = d x
node_at-set_parents q (k ∷ cs) t ns below d x =
    let n : BPlusNode = record (node_at t k) { parent_idx = some q } in
    let m : BPlusNode = record (ns k) { parent_idx = some q } in
    let first : k < length t.nodes = below k (ground (arith, nat_eq_iff k k)) in
    node_at-set_parents q cs (set_parent q k t) (update k m ns)
      (λ y h. omega (arith, length-put_node k n t, below y (ground (arith, h))))
      (put-agrees k n m t ns first (ap (child_of q) (d k)) d) x
    ∙ below_new-cons q k cs ns x

-- The parent that has room gets its child.
pub node_at-attach :
    (p key right : ℕ) (t : BPlusTree)
    → p < length t.nodes
    → right < length t.nodes
    → nat_eq p right ≡ false
    → (x : ℕ)
    → node_at (set_parent p right (put_node p (with_child key right (node_at t p)) t)) x
      ≡ update right
          (child_of p (node_at t right))
          (update p (with_child key right (node_at t p)) (node_at t))
          x
node_at-attach p key right t lt lt' ne =
    let n = with_child key right (node_at t p) in
    let t' = put_node p n t in
    let at : (x : ℕ) → node_at t' x ≡ update p n (node_at t) x =
      put-agrees p n n t (node_at t) lt refl (λ _. refl) in
    let old : node_at t' right ≡ node_at t right = at right ∙ rw ne refl in
    put-agrees right (child_of p (node_at t' right)) (child_of p (node_at t right)) t'
      (update p n (node_at t)) (omega (arith, length-put_node p n t, lt')) (ap (child_of p) old) at

pub lt-nat_eq : (i n : ℕ) → i < n → nat_eq n i ≡ false
lt-nat_eq i n lt = ground (arith, nat_eq_iff n i)

update_twice :
    (i : ℕ) (a b : BPlusNode) (ns : Nodes) (x : ℕ) → update i a (update i b ns) x ≡ update i a ns x
update_twice i a b ns x = elim (Bool-cases (nat_eq i x)) [
  | inl same ↦ rw same refl
  | inr other ↦ rw other refl
]

pub update_past :
    (i k : ℕ) (a b d : BPlusNode) (ns : Nodes) (x : ℕ)
    → update i a (update k b (update i d ns)) x ≡ update i a (update k b ns) x
update_past i k a b d ns x = elim (Bool-cases (nat_eq i x)) [
  | inl same ↦ rw same refl
  | inr other ↦ rw other refl
]

-- A new node, made from the one that was allocated.
pub put-allocated :
    (type : BNodeType) (f : BPlusNode → BPlusNode) (t : BPlusTree) (x : ℕ)
    → node_at
        (put_node
          (length t.nodes)
          (f (node_at (allocate_node type t).1 (length t.nodes)))
          (allocate_node type t).1)
        x
      ≡ update (length t.nodes) (f (new_node type (length t.nodes))) (node_at t) x
put-allocated type f t x =
    let len = length t.nodes in
    let t' = (allocate_node type t).1 in
    let n = new_node type len in
    let at : (y : ℕ) → node_at t' y ≡ update len n (node_at t) y = node_at-allocate type t in
    let here : node_at t' len ≡ n = at len ∙ update_self len n (node_at t) in
    put-agrees len (f (node_at t' len)) (f n) t' (update len n (node_at t))
      (omega (arith, length-allocate type t)) (ap f here) at x
    ∙ update_twice len (f n) n (node_at t) x

abbrev as_root : ℕ → ℕ → ℕ → BPlusNode → BPlusNode
as_root left key right n = record n {
  is_root = true;
  keys = key ∷ [];
  child_indices = left ∷ right ∷ [];
  size = 1;
}

abbrev below_root : ℕ → BPlusNode → BPlusNode
below_root r n = record n { is_root = false; parent_idx = some r }

-- The new root, over a root `left` and its new half.
pub node_at-grow_root :
    (left key right : ℕ) (t : BPlusTree)
    → left < length t.nodes
    → right < length t.nodes
    → nat_eq left right ≡ false
    → (x : ℕ)
    → node_at (grow_root left key right t) x
      ≡ update right
          (child_of (length t.nodes) (node_at t right))
          (update left
            (record (node_at t left) { is_root = false; parent_idx = some (length t.nodes) })
            (update (length t.nodes) (root_node (length t.nodes) left key right) (node_at t)))
          x
unfolding grow_root
node_at-grow_root left key right t lt lt' ne =
    let len = length t.nodes in
    let t₁ = (allocate_node internal t).1 in
    let root = as_root left key right (node_at t₁ len) in
    let t₂ = put_node len root t₁ in
    let size : length t₂.nodes ≡ suc len =
      length-put_node len root t₁ ∙ length-allocate internal t in
    let ns₂ = update len (root_node len left key right) (node_at t) in
    let at₂ : (y : ℕ) → node_at t₂ y ≡ ns₂ y = put-allocated internal (as_root left key right) t in
    let left₂ : node_at t₂ left ≡ node_at t left = at₂ left ∙ rw (lt-nat_eq left len lt) refl in
    let t₃ = put_node left (below_root len (node_at t₂ left)) t₂ in
    let ns₃ = update left (below_root len (node_at t left)) ns₂ in
    let at₃ : (y : ℕ) → node_at t₃ y ≡ ns₃ y =
      put-agrees left (below_root len (node_at t₂ left)) (below_root len (node_at t left)) t₂ ns₂
        (omega (arith, size, lt)) (ap (below_root len) left₂) at₂ in
    let right₃ : node_at t₃ right ≡ node_at t right =
      at₃ right ∙ rw (ne, lt-nat_eq right len lt') refl in
    put-agrees right (child_of len (node_at t₃ right)) (child_of len (node_at t right)) t₃ ns₃
      (omega (arith, length-put_node left (below_root len (node_at t₂ left)) t₂, size, lt'))
      (ap (child_of len) right₃) at₃
