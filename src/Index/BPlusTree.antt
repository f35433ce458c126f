-- ===== src/Index/BPlusTree.antt =====
-- src/index/BPlusTree.h and .cpp: the nodes in their vector, search and range scan. The tree only
-- compares its keys, so an `int` k stands as the number k + 2^31 (`biased`).
pub mod Insertion
pub mod Removal
pub mod Ranges
pub mod Shape
pub mod Searching
pub mod Entries
pub mod Update
pub mod Leaves
pub mod LeafSplit
pub mod LeafHalves
pub mod Attaching
pub mod Attached
pub mod Growing
pub mod Grown
pub mod Halving
pub mod InnerSplit
pub mod InnerHalves
pub mod Agreement
pub mod HalvesAgree
pub mod Calls
pub mod Climbing
pub mod Inserting
pub mod First
pub mod Building
pub mod Dangling
pub mod LeafScan
pub mod Scanning
use my_db.Base.{
  ℕ, zero, suc, ◌+◌, ◌-◌, ◌/◌, ◌^◌, Bool, true, false, ◌&&◌, Option, none, some, List, [], ◌∷◌,
  ◌++◌, length, get_elem?, set, nat_eq, leb, ltb, if◌then◌else◌,
}
use my_db.Base.Int.{ℤ, pos, negsuc}
use my_db.Common.Rid.{Rid}

-- The order of ints as that of numbers below 2^32.
abbrev pub biased : ℤ → ℕ
biased (pos n) = 2 ^ 31 + n
biased (negsuc n) = 2 ^ 31 - 1 - n

pub data BNodeType : Type 0 where
  internal leaf : BNodeType

-- An index of -1 is `none`.
pub record BPlusNode : Type 0 where
  pub type : BNodeType
  pub is_root : Bool
  pub page_id : ℕ
  pub parent_idx : Option ℕ
  pub size : ℕ
  pub keys : List ℕ
  pub values : List Rid
  pub child_indices : List ℕ
  pub next_leaf_idx : Option ℕ

-- `nodes_` is a vector: `capacity` elements fit where it lies, and `grow`, which is the library's, says
-- how many fit after an element is added to a full one.
pub record BPlusTree : Type 0 where
  pub order : ℕ
  pub nodes : List BPlusNode
  pub capacity : ℕ
  pub grow : ℕ → ℕ
  pub root_idx : Option ℕ
  pub entry_count : ℕ

abbrev pub new_tree : (ℕ → ℕ) → ℕ → BPlusTree
new_tree grow order = record {
  order = order;
  nodes = [];
  capacity = 0;
  grow = grow;
  root_idx = none;
  entry_count = 0;
}

-- Whether adding a node leaves the others where they lie, so that references to them stay good.
abbrev pub has_capacity : BPlusTree → Bool
has_capacity t = ltb (length t.nodes) t.capacity

abbrev pub max_leaf_keys : BPlusTree → ℕ
max_leaf_keys t = t.order - 1

-- ceil((order - 1) / 2)
abbrev pub min_leaf_keys : BPlusTree → ℕ
min_leaf_keys t = t.order / 2

abbrev pub max_internal_keys : BPlusTree → ℕ
max_internal_keys t = t.order - 1

-- A node as `allocateNode` sets it.
abbrev pub new_node : BNodeType → ℕ → BPlusNode
new_node type i = record {
  type = type;
  is_root = false;
  page_id = i;
  parent_idx = none;
  size = 0;
  keys = [];
  values = [];
  child_indices = [];
  next_leaf_idx = none;
}

unfoldable pub allocate_node : BNodeType → BPlusTree → ℕ × BPlusTree
allocate_node type t = (
  length t.nodes,
  record t {
    nodes = t.nodes ++ new_node type (length t.nodes) ∷ [];
    capacity = if has_capacity t then t.capacity else t.grow (length t.nodes);
  },
)

-- `nodes_[i]`; no index out of range is reached from a sound tree.
abbrev pub node_at : BPlusTree → ℕ → BPlusNode
node_at t i = elim (get_elem? t.nodes i) [ none ↦ new_node leaf i | some n ↦ n ]

abbrev pub put_node : ℕ → BPlusNode → BPlusTree → BPlusTree
put_node i n t = record t { nodes = set t.nodes i n }

-- The loop of `findLeaf` over a node's keys: how many of the first `size` are not above the key.
unfoldable pub child_pos : ℕ → ℕ → List ℕ → ℕ
child_pos zero key ks = 0
child_pos (suc n) key [] = 0
child_pos (suc n) key (k ∷ ks) = let rest = child_pos n key ks in if leb k key then suc rest else 0

abbrev pub child_at : BPlusNode → ℕ → ℕ
child_at n p = elim (get_elem? n.child_indices p) [ none ↦ 0 | some c ↦ c ]

-- The descent from node `i`; the number of nodes is enough fuel.
unfoldable pub descend : ℕ → ℕ → BPlusTree → ℕ → ℕ
unfolding child_pos
descend zero key t i = i
descend (suc fuel) key t i = elim ((node_at t i).type) [
  | leaf ↦ i
  | internal ↦ let n = node_at t i in descend fuel key t (child_at n (child_pos n.size key n.keys))
]

unfoldable pub find_leaf : ℕ → BPlusTree → Option ℕ
unfolding descend
find_leaf key t = elim (t.root_idx) [
  | none ↦ none
  | some r ↦ some (descend (length t.nodes) key t r)
]

-- The first of a leaf's first `size` entries with the key.
unfoldable pub find_entry : ℕ → ℕ → List ℕ → List Rid → Option Rid
find_entry zero key ks vs = none
find_entry (suc n) key (k ∷ ks) (v ∷ vs) =
    let rest = find_entry n key ks vs in if nat_eq k key then some v else rest
find_entry (suc n) key _ _ = none

abbrev pub leaf_entry : ℕ → BPlusNode → Option Rid
leaf_entry key n = find_entry n.size key n.keys n.values

-- `none` is the `false` of a key that is not there.
unfoldable pub search : ℕ → BPlusTree → Option Rid
unfolding find_leaf find_entry
search key t = elim (find_leaf key t) [ none ↦ none | some i ↦ leaf_entry key (node_at t i) ]

-- One leaf of `rangeScan`: the values whose keys are in range, and whether a key was above it.
unfoldable pub scan_leaf : ℕ → ℕ → ℕ → List ℕ → List Rid → List Rid × Bool
scan_leaf zero low high ks vs = ([], false)
scan_leaf (suc n) low high (k ∷ ks) (v ∷ vs) =
    let (found, above) = scan_leaf n low high ks vs in
    let here = if leb low k && leb k high then v ∷ found else found in
    if ltb high k then ([], true) else (here, above)
scan_leaf (suc n) low high _ _ = ([], false)

-- The walk over the linked leaves; the number of nodes is enough fuel.
unfoldable pub scan_from : ℕ → ℕ → ℕ → BPlusTree → Option ℕ → List Rid
unfolding scan_leaf
scan_from zero low high t current = []
scan_from (suc fuel) low high t none = []
scan_from (suc fuel) low high t (some i) =
    let n = node_at t i in
    let (found, above) = scan_leaf n.size low high n.keys n.values in
    elim above [ true ↦ found | false ↦ found ++ scan_from fuel low high t n.next_leaf_idx ]

unfoldable pub range_scan : ℕ → ℕ → BPlusTree → List Rid
unfolding scan_from find_leaf
range_scan low high t = elim (find_leaf low t) [
  | none ↦ []
  | some i ↦ scan_from (length t.nodes) low high t (some i)
]
