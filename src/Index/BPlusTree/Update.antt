-- ===== src/Index/BPlusTree/Update.antt =====
-- Changing one node of the vector of src/index/BPlusTree.cpp, and adding one at its end.
use my_db.Base.{
  ℕ, suc, ◌<◌, ◌≡◌, ◌≢◌, refl, [], ◌∷◌, arith, length, length-append, length-set,
  get_elem?-append_end, get_elem?-set_self, get_elem?-set_ne, nat_eq, nat_eq_iff, Bool-cases, inl,
  inr, if◌then◌else◌,
}
use my_db.Index.BPlusTree.{
  BPlusNode, BPlusTree, BNodeType, new_node, node_at, put_node, allocate_node,
}

abbrev pub update {ℓ} : {A : Type ℓ} → ℕ → A → (ℕ → A) → ℕ → A
update i a f x = if nat_eq i x then a else f x

pub update_self {ℓ} : {A : Type ℓ} (i : ℕ) (a : A) (f : ℕ → A) → update i a f i ≡ a
update_self i a f = ground (arith, nat_eq_iff i i)

pub update_ne {ℓ} : {A : Type ℓ} (i x : ℕ) (a : A) (f : ℕ → A) → i ≢ x → update i a f x ≡ f x
update_ne i x a f ne = ground (arith, nat_eq_iff i x)

pub node_at-put_node :
    (i x : ℕ) (n : BPlusNode) (t : BPlusTree)
    → i < length t.nodes
    → node_at (put_node i n t) x ≡ update i n (node_at t) x
node_at-put_node i x n t lt = elim (Bool-cases (nat_eq i x)) [
  | inl same ↦
      let here : i ≡ x = (nat_eq_iff i x).0 same in
      rw (same, ← here, get_elem?-set_self t.nodes i n lt, node_at) refl
  | inr other ↦
      let ne : i ≢ x = λ e. ground (arith, nat_eq_iff i x) in
      rw (other, get_elem?-set_ne t.nodes n ne, node_at) refl
]

pub node_at-allocate :
    (type : BNodeType) (t : BPlusTree) (x : ℕ)
    → node_at (allocate_node type t).1 x
      ≡ update (length t.nodes) (new_node type (length t.nodes)) (node_at t) x
unfolding allocate_node
node_at-allocate type t x = elim (Bool-cases (nat_eq (length t.nodes) x)) [
  | inl same ↦
      let end = get_elem?-append_end t.nodes (new_node type (length t.nodes)) x in
      rw (end, same, node_at) refl
  | inr other ↦
      let end = get_elem?-append_end t.nodes (new_node type (length t.nodes)) x in
      rw (end, other, node_at) refl
]

pub length-put_node :
    (i : ℕ) (n : BPlusNode) (t : BPlusTree) → length (put_node i n t).nodes ≡ length t.nodes
length-put_node i n t = length-set t.nodes i n

pub length-allocate :
    (type : BNodeType) (t : BPlusTree)
    → length (allocate_node type t).1.nodes ≡ suc (length t.nodes)
unfolding allocate_node
length-allocate type t = omega (arith, length-append t.nodes (new_node type (length t.nodes) ∷ []))
