-- ===== src/Index/BPlusTree/Building.antt =====
-- A tree of src/index/BPlusTree.cpp that is filled by `insert`, from an empty one.
use my_db.Base.{
  ℕ, ◌<◌, ◌≡◌, refl, sym, ap, ◌∙◌, subst, Bool, true, false, Option, none, some, List, [], ◌∷◌,
  arith, nat_eq, nat_eq_iff, Bool-cases, Option-cases, inl, inr, if◌then◌else◌,
}
use my_db.Common.Rid.{Rid}
use my_db.Index.BPlusTree.{BPlusTree, new_tree, search}
use my_db.Index.BPlusTree.Insertion.{insert}
use my_db.Index.BPlusTree.Shape.{Content, top, IsSound, empty}
use my_db.Index.BPlusTree.Searching.{search-IsSound}
use my_db.Index.BPlusTree.Inserting.{insert-IsSound, with_new, HasRoom}

abbrev pub tree_of : Option (Bool × BPlusTree) → Option BPlusTree
tree_of none = none
tree_of (some r) = some r.1

-- Insertions one after the other; `none` once a dangling reference is used.
abbrev pub insert_all : List (ℕ × Rid) → Option BPlusTree → Option BPlusTree
insert_all [] t = t
insert_all (e ∷ es) none = none
insert_all ((key, value) ∷ es) (some t) = insert_all es (tree_of (insert key value t))

-- Every insertion finds room.
abbrev pub HasRooms : List (ℕ × Rid) → Option BPlusTree → Type 0
HasRooms [] t = Unit
HasRooms (e ∷ es) none = Unit
HasRooms ((key, value) ∷ es) (some t) = HasRoom key t × HasRooms es (tree_of (insert key value t))

-- The first value that was given to a key.
unfoldable pub first_entry : ℕ → List (ℕ × Rid) → Option Rid
first_entry j [] = none
first_entry j ((key, value) ∷ es) =
    let rest = first_entry j es in if nat_eq key j then some value else rest

-- Every key is one that the tree can hold.
abbrev pub IsBelow : List (ℕ × Rid) → Type 0
IsBelow [] = Unit
IsBelow ((key, value) ∷ es) = (key < top) × IsBelow es

or_else : Option Rid → Option Rid → Option Rid
or_else (some v) b = some v
or_else none b = b

or_else_assoc : (a b d : Option Rid) → or_else (or_else a b) d ≡ or_else a (or_else b d)
unfolding or_else
or_else_assoc none b d = refl
or_else_assoc (some v) b d = refl

or_else-none : (a : Option Rid) → or_else a none ≡ a
unfolding or_else
or_else-none none = refl
or_else-none (some v) = refl

or_else-if :
    (b : Bool) (v : Rid) (a : Option Rid)
    → or_else (if b then some v else none) a ≡ (if b then some v else a)
unfolding or_else
or_else-if true v a = refl
or_else-if false v a = refl

with_new_self :
    (key : ℕ) (value : Rid) (c : Content) → with_new key value c key ≡ or_else (c key) (some value)
unfolding with_new or_else
with_new_self key value c = elim (Option-cases (c key)) [
  | inl missing ↦ rw (missing, with_new) (rw ((nat_eq_iff key key).1 refl) refl)
  | inr (v, there) ↦ rw (there, with_new) there
]

with_new-or_else :
    (key j : ℕ) (value : Rid) (c : Content)
    → with_new key value c j ≡ or_else (c j) (if nat_eq key j then some value else none)
unfolding with_new or_else
with_new-or_else key j value c = elim (Bool-cases (nat_eq key j)) [
  | inl same ↦
      let at : key ≡ j = (nat_eq_iff key j).0 same in
      rw (← at, (nat_eq_iff key key).1 refl) (with_new_self key value c)
  | inr other ↦ elim (Option-cases (c key)) [
    | inl missing ↦ rw (missing, with_new, other) (sym (or_else-none (c j)))
    | inr (v, there) ↦ rw (there, with_new, other) (sym (or_else-none (c j)))
  ]
]

insert_all-IsSound :
    (es : List (ℕ × Rid)) (c : Content) (t : BPlusTree)
    → IsSound c t
    → IsBelow es
    → 1 < t.order
    → HasRooms es (some t)
    → (t' : BPlusTree) × (d : Content) × (insert_all es (some t) ≡ some t')
      × IsSound d t'
      × ((j : ℕ) → d j ≡ or_else (c j) (first_entry j es))
unfolding first_entry or_else
insert_all-IsSound [] c t sound below enough rooms =
    (t, c, refl, sound, λ j. sym (or_else-none (c j)))
insert_all-IsSound ((key, value) ∷ es) c t sound (lt, below) enough (room, rooms) =
    let h = insert-IsSound c t key value sound lt enough room in
    let next : tree_of (insert key value t) ≡ some h.after = rw (h.ends) refl in
    let (t', d, run, sound', at) =
      insert_all-IsSound es (with_new key value c) h.after h.sound below
        (omega (arith, enough, h.order)) (subst (HasRooms es) next rooms) in
    (
      t',
      d,
      ap (insert_all es) next ∙ run,
      sound',
      λ j.
          at j
          ∙ ap (λ a. or_else a (first_entry j es)) (with_new-or_else key j value c)
          ∙ or_else_assoc (c j) (if nat_eq key j then some value else none) (first_entry j es)
          ∙ ap (or_else (c j)) (or_else-if (nat_eq key j) value (first_entry j es)),
    )

-- A tree of order 2 or more that is filled from empty with keys below 2 ^ 32, where each insertion
-- finds a leaf that is not full or room for as many nodes again as there are, ends as a tree that
-- finds, for every key below 2 ^ 32, the first value that was inserted under it, and nothing where
-- there is none.
pub search-insert_all :
    (grow : ℕ → ℕ) (order key : ℕ) (es : List (ℕ × Rid))
    → 1 < order
    → IsBelow es
    → HasRooms es (some (new_tree grow order))
    → key < top
    → (t : BPlusTree) × (insert_all es (some (new_tree grow order)) ≡ some t)
      × (search key t ≡ first_entry key es)
unfolding or_else
search-insert_all grow order key es enough below rooms lt =
    let (t, d, run, sound, at) =
      insert_all-IsSound es (λ _. none) (new_tree grow order) (empty refl (λ _. refl)) below enough
        rooms in
    (t, run, search-IsSound d t key sound lt ∙ at key)
