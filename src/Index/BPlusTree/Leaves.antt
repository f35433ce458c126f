-- ===== src/Index/BPlusTree/Leaves.antt =====
-- The steps of src/index/BPlusTree.cpp that change a leaf in its place.
use my_db.Base.{
  ℕ, suc, ◌+◌, ◌≤◌, ◌<◌, ◌≡◌, ◌≢◌, refl, sym, ◌∙◌, true, false, Option, none, some, arith, length,
  nat_eq, nat_eq_iff, Bool-cases, inl, inr, if◌then◌else◌,
}
use my_db.Common.Rid.{Rid}
use my_db.Index.BPlusTree.{BPlusNode, internal, leaf, leaf_entry, find_entry}
use my_db.Index.BPlusTree.Insertion.{with_entry, lower_bound}
use my_db.Index.BPlusTree.Entries.{
  lower_bound-le, length-insert_at, find_entry-insert_at, absent-member, Ascending-insert_at,
}
use my_db.Index.BPlusTree.Shape.{
  Shape, Content, Nodes, IsLeaf, IsInner, HasPlace, IsNext, IsTree, leaf_entry-entry_of,
  leaf_entry-IsLeaf,
}
use my_db.Index.BPlusTree.Update.{update}

-- The map with an entry more.
abbrev pub extend : ℕ → Rid → Content → Content
extend key value c j = if nat_eq key j then some value else c j

pub with_entry-IsLeaf :
    (lo hi key : ℕ) (value : Rid) (c : Content) (n : BPlusNode)
    → IsLeaf lo hi c n
    → lo ≤ key
    → key < hi
    → leaf_entry key n ≡ none
    → IsLeaf lo hi (extend key value c) (with_entry key value n)
unfolding with_entry
with_entry-IsLeaf lo hi key value c n h le lt absent =
    let absent' : find_entry (length n.keys) key n.keys n.values ≡ none = rw h.size at absent in
    let missing = absent-member key n.keys n.values h.values absent' in
    let p = lower_bound key n.keys in
    record {
      size = omega (arith, h.size, length-insert_at p key n.keys);
      values =
          omega (arith, h.values, length-insert_at p key n.keys, length-insert_at p value n.values);
      ascending = Ascending-insert_at lo hi key n.keys h.ascending le lt missing;
      entry = λ j above below.
          let size : n.size + 1 ≡ suc (length n.keys) = omega (arith, h.size) in
          let old : find_entry (length n.keys) j n.keys n.values ≡ c j =
            rw h.size at (leaf_entry-IsLeaf h j above below) in
          let new =
            find_entry-insert_at p j key value n.keys n.values (lower_bound-le key n.keys) h.values
              absent' in
          let found : leaf_entry j (with_entry key value n) ≡ extend key value c j =
            rw (size, new, old) refl in
          sym (
            leaf_entry-entry_of (with_entry key value n) j
              (omega (arith, h.size, length-insert_at p key n.keys)))
          ∙ found;
    }

-- Nodes that differ in keys and values only.
pub record SameSkeleton (ns ns' : Nodes) : Type 0 where
  pub type : (i : ℕ) → (ns' i).type ≡ (ns i).type
  pub is_root : (i : ℕ) → (ns' i).is_root ≡ (ns i).is_root
  pub parent : (i : ℕ) → (ns' i).parent_idx ≡ (ns i).parent_idx
  pub children : (i : ℕ) → (ns' i).child_indices ≡ (ns i).child_indices
  pub next : (i : ℕ) → (ns' i).next_leaf_idx ≡ (ns i).next_leaf_idx

module _ {g : Shape} {c : Content} {len r : ℕ} {ns ns' : Nodes} (s : IsTree g c len r ns)
    (same : SameSkeleton ns ns') where
  place-skeleton : (i : ℕ) → g.attached i ≡ true → (ns' i).is_root ≡ false → HasPlace g ns' i
  place-skeleton i at free =
      let p = s.place i at (sym (same.is_root i) ∙ free) in
      record {
        pointer = same.parent i ∙ p.pointer;
        live = p.live;
        type = same.type (g.parent i) ∙ p.type;
        among = rw (same.children (g.parent i)) p.among;
      }

  IsNext-skeleton : (hi : ℕ) (next : Option ℕ) → IsNext g ns hi next → IsNext g ns' hi next
  IsNext-skeleton hi none h = h
  IsNext-skeleton hi (some n) h = let (live, is, lo) = h in (live, same.type n ∙ is, lo)

  pub skeleton-IsTree :
      {d : Content}
      → ((i : ℕ) → g.live i ≡ true → (ns i).type ≡ leaf → IsLeaf (g.lo i) (g.hi i) d (ns' i))
      → ((i : ℕ) → g.live i ≡ true → (ns i).type ≡ internal → IsInner g i (ns' i))
      → IsTree g d len r ns'
  skeleton-IsTree leaves inner = record {
    bound = s.bound;
    leaves = λ i live is. leaves i live (sym (same.type i) ∙ is);
    inner = λ i live is. inner i live (sym (same.type i) ∙ is);
    place = place-skeleton;
    chain = λ i live is.
        rw (same.next i)
          (IsNext-skeleton (g.hi i) (ns i).next_leaf_idx (s.chain i live (sym (same.type i) ∙ is)));
    apart =
        λ i j u v ti tj ne. s.apart i j u v (sym (same.type i) ∙ ti) (sym (same.type j) ∙ tj) ne;
    attached-live = s.attached-live;
    root_attached = s.root_attached;
    root_lo = s.root_lo;
    root_outer = s.root_outer;
    root_height = s.root_height;
    root_highest = s.root_highest;
    root_flag = same.is_root r ∙ s.root_flag;
    root_only = λ i live flag. s.root_only i live (sym (same.is_root i) ∙ flag);
  }

-- The node `n` in the place of leaf `l`.
pub record Replaces (g : Shape) (c : Content) (ns : Nodes) (l : ℕ) (n : BPlusNode) : Type 0 where
  pub live : g.live l ≡ true
  pub old_type : (ns l).type ≡ leaf
  pub type : n.type ≡ (ns l).type
  pub is_root : n.is_root ≡ (ns l).is_root
  pub parent : n.parent_idx ≡ (ns l).parent_idx
  pub children : n.child_indices ≡ (ns l).child_indices
  pub next : n.next_leaf_idx ≡ (ns l).next_leaf_idx
  pub is_leaf : IsLeaf (g.lo l) (g.hi l) c n

part-update :
    {A : Type 0} (part : BPlusNode → A) (l i : ℕ) (n : BPlusNode) (ns : Nodes)
    → part n ≡ part (ns l)
    → part (update l n ns i) ≡ part (ns i)
part-update part l i n ns e = elim (Bool-cases (nat_eq l i)) [
  | inl same ↦ rw (same, ← (nat_eq_iff l i).0 same) e
  | inr other ↦ rw other refl
]

module _ {g : Shape} {c d : Content} {len r : ℕ} {ns : Nodes} (s : IsTree g c len r ns) (l : ℕ)
    (n : BPlusNode) (h : Replaces g d ns l n)
    (outside : (j : ℕ) → (g.lo l ≤ j → ¬ (j < g.hi l)) → d j ≡ c j) where
  update-skeleton : SameSkeleton ns (update l n ns)
  update-skeleton = record {
    type = λ i. part-update (λ x. x.type) l i n ns h.type;
    is_root = λ i. part-update (λ x. x.is_root) l i n ns h.is_root;
    parent = λ i. part-update (λ x. x.parent_idx) l i n ns h.parent;
    children = λ i. part-update (λ x. x.child_indices) l i n ns h.children;
    next = λ i. part-update (λ x. x.next_leaf_idx) l i n ns h.next;
  }

  other-IsLeaf :
      (i : ℕ) → l ≢ i → g.live i ≡ true → (ns i).type ≡ leaf → IsLeaf (g.lo i) (g.hi i) d (ns i)
  other-IsLeaf i ne live is =
      let old = s.leaves i live is in
      record {
        size = old.size;
        values = old.values;
        ascending = old.ascending;
        entry = λ j above below.
            old.entry j above below
            ∙ sym (outside j (ground (arith, s.apart l i h.live live h.old_type is ne)));
      }

  pub replace-IsTree : IsTree g d len r (update l n ns)
  replace-IsTree =
      skeleton-IsTree s update-skeleton
        (λ i live is. elim (Bool-cases (nat_eq l i)) [
          | inl same ↦ rw (same, ← (nat_eq_iff l i).0 same) h.is_leaf
          | inr other ↦ rw other (other-IsLeaf i (λ e. ground (arith, nat_eq_iff l i)) live is)
        ])
        (λ i live is. elim (Bool-cases (nat_eq l i)) [
          | inl same ↦ absurd (ground (arith, nat_eq_iff l i, h.old_type, is))
          | inr other ↦ rw other (s.inner i live is)
        ])
