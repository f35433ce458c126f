-- ===== src/Index/BPlusTree/Shape.antt =====
-- What holds of the node vector of src/index/BPlusTree.cpp: every node of the tree has a range of
-- keys, and the leaves hold the entries of one map from keys to record identifiers.
use my_db.Base.{
  ℕ, suc, ◌≤◌, ◌<◌, ◌^◌, ◌≡◌, ◌≢◌, ◌⊎◌, refl, ◌∙◌, Bool, true, false, Option, none, some, List, [],
  ◌∷◌, arith, length, member, nat_eq, nat_eq_iff, if◌then◌else◌,
}
use my_db.Common.Rid.{Rid}
use my_db.Index.BPlusTree.{BPlusNode, BPlusTree, internal, leaf, find_entry, leaf_entry, node_at}
use my_db.Index.BPlusTree.Ranges.{Ascending, Kids}

-- Every key is below this.
abbrev pub top : ℕ
top = 2 ^ 32

abbrev pub Content : Type 0
Content = ℕ → Option Rid

abbrev pub Nodes : Type 0
Nodes = ℕ → BPlusNode

-- The value beside the first key that is `j`.
unfoldable pub entry_of : ℕ → List ℕ → List Rid → Option Rid
entry_of j [] vs = none
entry_of j (k ∷ ks) [] = none
entry_of j (k ∷ ks) (v ∷ vs) = let rest = entry_of j ks vs in if nat_eq j k then some v else rest

-- For each node: whether it is part of the tree and has a place below its parent, the range of its
-- keys, the end of the range that its parent gives it, its height and its parent.
pub record Shape : Type 0 where
  pub live : ℕ → Bool
  pub attached : ℕ → Bool
  pub lo : ℕ → ℕ
  pub hi : ℕ → ℕ
  pub outer : ℕ → ℕ
  pub height : ℕ → ℕ
  pub parent : ℕ → ℕ

pub record IsLeaf (lo hi : ℕ) (c : Content) (n : BPlusNode) : Type 0 where
  pub size : n.size ≡ length n.keys
  pub values : length n.values ≡ length n.keys
  pub ascending : Ascending lo n.keys hi
  pub entry : (j : ℕ) → lo ≤ j → j < hi → entry_of j n.keys n.values ≡ c j

find_entry-entry_of :
    (j : ℕ) (ks : List ℕ) (vs : List Rid) → find_entry (length ks) j ks vs ≡ entry_of j ks vs
unfolding find_entry entry_of
find_entry-entry_of j [] vs = refl
find_entry-entry_of j (k ∷ ks) [] = refl
find_entry-entry_of j (k ∷ ks) (v ∷ vs) =
    ground (arith, find_entry-entry_of j ks vs, nat_eq_iff k j, nat_eq_iff j k)

-- A leaf's own search looks all its keys up.
pub leaf_entry-entry_of :
    (n : BPlusNode) (j : ℕ) → n.size ≡ length n.keys → leaf_entry j n ≡ entry_of j n.keys n.values
leaf_entry-entry_of n j size = rw size (find_entry-entry_of j n.keys n.values)

pub leaf_entry-IsLeaf :
    {lo hi : ℕ} {c : Content} {n : BPlusNode}
    → IsLeaf lo hi c n
    → (j : ℕ) → lo ≤ j
    → j < hi
    → leaf_entry j n ≡ c j
leaf_entry-IsLeaf {n = n} h j above below = leaf_entry-entry_of n j h.size ∙ h.entry j above below

pub record Kid (g : Shape) (p c a b : ℕ) : Type 0 where
  pub attached : g.attached c ≡ true
  pub lo : g.lo c ≡ a
  pub outer : g.outer c ≡ b
  pub height : suc (g.height c) ≡ g.height p
  pub parent : g.parent c ≡ p

pub record IsInner (g : Shape) (i : ℕ) (n : BPlusNode) : Type 0 where
  pub size : n.size ≡ length n.keys
  pub kids : Kids (Kid g i) (g.hi i) (g.lo i) n.keys n.child_indices

-- The place of a node below its parent.
pub record HasPlace (g : Shape) (ns : Nodes) (i : ℕ) : Type 0 where
  pub pointer : (ns i).parent_idx ≡ some (g.parent i)
  pub live : g.live (g.parent i) ≡ true
  pub type : (ns (g.parent i)).type ≡ internal
  pub among : member i (ns (g.parent i)).child_indices ≡ true

-- The leaf behind a leaf begins where that ends; the last one ends at the top.
abbrev pub IsNext : Shape → Nodes → ℕ → Option ℕ → Type 0
IsNext g ns hi none = hi ≡ top
IsNext g ns hi (some n) = (g.live n ≡ true) × ((ns n).type ≡ leaf) × (g.lo n ≡ hi)

-- `ns` are the nodes of a tree with root `r`, `len` of them allocated.
pub record IsTree (g : Shape) (c : Content) (len r : ℕ) (ns : Nodes) : Type 0 where
  pub bound : (i : ℕ) → g.live i ≡ true → i < len
  pub leaves : (i : ℕ) → g.live i ≡ true → (ns i).type ≡ leaf → IsLeaf (g.lo i) (g.hi i) c (ns i)
  pub inner : (i : ℕ) → g.live i ≡ true → (ns i).type ≡ internal → IsInner g i (ns i)
  pub place : (i : ℕ) → g.attached i ≡ true → (ns i).is_root ≡ false → HasPlace g ns i
  pub chain :
      (i : ℕ) → g.live i ≡ true → (ns i).type ≡ leaf → IsNext g ns (g.hi i) (ns i).next_leaf_idx
  pub apart :
      (i j : ℕ)
      → g.live i ≡ true
      → g.live j ≡ true
      → (ns i).type ≡ leaf
      → (ns j).type ≡ leaf
      → i ≢ j
      → (g.hi i ≤ g.lo j) ⊎ (g.hi j ≤ g.lo i)
  pub attached-live : (i : ℕ) → g.attached i ≡ true → g.live i ≡ true
  pub root_attached : g.attached r ≡ true
  pub root_lo : g.lo r ≡ 0
  pub root_outer : g.outer r ≡ top
  pub root_height : g.height r < len
  pub root_highest : (i : ℕ) → g.live i ≡ true → g.height i ≤ g.height r
  pub root_flag : (ns r).is_root ≡ true
  pub root_only : (i : ℕ) → g.live i ≡ true → (ns i).is_root ≡ true → i ≡ r

-- Every node has its place, and the whole of its range.
pub record IsWhole (g : Shape) : Type 0 where
  pub attached : (i : ℕ) → g.live i ≡ true → g.attached i ≡ true
  pub outer : (i : ℕ) → g.outer i ≡ g.hi i

-- The half `right` of node `left`, which holds the keys from `key` on, has no place yet.
pub record IsPending (g : Shape) (ns : Nodes) (left key right : ℕ) : Type 0 where
  pub left_attached : g.attached left ≡ true
  pub right_live : g.live right ≡ true
  pub right_attached : g.attached right ≡ false
  pub attached : (i : ℕ) → i ≢ right → g.live i ≡ true → g.attached i ≡ true
  pub outer : (i : ℕ) → i ≢ left → g.outer i ≡ g.hi i
  pub left_hi : g.hi left ≡ key
  pub right_lo : g.lo right ≡ key
  pub right_hi : g.hi right ≡ g.outer left
  pub above : g.lo left < key
  pub below : key < g.hi right
  pub height : g.height right ≡ g.height left
  pub not_root : (ns right).is_root ≡ false

-- A tree, or none, whose entries are those of `c`.
pub data IsSound (c : Content) (t : BPlusTree) : Type 0 where
  empty : t.root_idx ≡ none → ((j : ℕ) → c j ≡ none) → IsSound c t
  tree :
      (g : Shape) (r : ℕ)
      → t.root_idx ≡ some r
      → IsTree g c (length t.nodes) r (node_at t)
      → IsWhole g
      → IsSound c t
