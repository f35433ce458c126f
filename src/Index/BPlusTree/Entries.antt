-- ===== src/Index/BPlusTree/Entries.antt =====
-- The keys and values of a leaf of src/index/BPlusTree.cpp: one entry more, and the two halves.
use my_db.Base.{
  ℕ, zero, suc, ◌+◌, ◌≤◌, ◌<◌, ◌≡◌, refl, ap, false, none, some, List, [], ◌∷◌, arith, length, take,
  drop, member, nat_eq, nat_eq_iff, ltb, Bool-cases, inl, inr, if◌then◌else◌,
}
use my_db.Common.Rid.{Rid}
use my_db.Index.BPlusTree.{find_entry}
use my_db.Index.BPlusTree.Insertion.{lower_bound, insert_at, key_at}
use my_db.Index.BPlusTree.Ranges.{Ascending}

pub lower_bound-le : (key : ℕ) (ks : List ℕ) → lower_bound key ks ≤ length ks
unfolding lower_bound
lower_bound-le key [] = omega arith
lower_bound-le key (k ∷ ks) = ground (arith, lower_bound-le key ks)

pub length-insert_at {ℓ} :
    {A : Type ℓ} (i : ℕ) (a : A) (xs : List A) → length (insert_at i a xs) ≡ suc (length xs)
unfolding insert_at
length-insert_at zero a xs = refl
length-insert_at (suc i) a [] = refl
length-insert_at (suc i) a (x ∷ xs) = ap suc (length-insert_at i a xs)

-- An entry that is not there yet is added at any position.
pub find_entry-insert_at :
    (p j key : ℕ) (value : Rid) (ks : List ℕ) (vs : List Rid)
    → p ≤ length ks
    → length vs ≡ length ks
    → find_entry (length ks) key ks vs ≡ none
    → find_entry (suc (length ks)) j (insert_at p key ks) (insert_at p value vs)
      ≡ (if nat_eq key j then some value else find_entry (length ks) j ks vs)
unfolding find_entry insert_at
find_entry-insert_at zero j key value ks vs le len absent = refl
find_entry-insert_at (suc p) j key value [] vs le len absent = absurd (omega arith)
find_entry-insert_at (suc p) j key value (k ∷ ks) [] le len absent = absurd (omega arith)
find_entry-insert_at (suc p) j key value (k ∷ ks) (v ∷ vs) le len absent =
    ground (arith, find_entry-insert_at p j key value ks vs (omega arith) (omega arith))

pub absent-member :
    (key : ℕ) (ks : List ℕ) (vs : List Rid)
    → length vs ≡ length ks
    → find_entry (length ks) key ks vs ≡ none
    → member key ks ≡ false
unfolding find_entry member
absent-member key [] vs len absent = refl
absent-member key (k ∷ ks) [] len absent = absurd (omega arith)
absent-member key (k ∷ ks) (v ∷ vs) len absent =
    ground (arith, absent-member key ks vs (omega arith))

pub Ascending-insert_at :
    (lo hi key : ℕ) (ks : List ℕ)
    → Ascending lo ks hi
    → lo ≤ key
    → key < hi
    → member key ks ≡ false
    → Ascending lo (insert_at (lower_bound key ks) key ks) hi
unfolding insert_at lower_bound member
Ascending-insert_at lo hi key [] h le lt absent = (le, lt)
Ascending-insert_at lo hi key (k ∷ ks) h le lt absent = elim (Bool-cases (ltb k key)) [
  | inl before ↦ rw before (
    h.0,
    Ascending-insert_at (suc k) hi key ks h.1 (ground (arith, before)) lt (ground (arith, absent)),
  )
  | inr after ↦ rw after (le, (ground (arith, after, absent, nat_eq_iff k key), h.1))
]

pub key_at-drop : (s : ℕ) (ks : List ℕ) → key_at (drop s ks) 0 ≡ key_at ks s
key_at-drop zero ks = refl
key_at-drop (suc s) [] = refl
key_at-drop (suc s) (k ∷ ks) = key_at-drop s ks

-- The two halves, with the key between them.
pub Ascending-take :
    (s lo hi : ℕ) (ks : List ℕ)
    → Ascending lo ks hi
    → s < length ks
    → Ascending lo (take s ks) (key_at ks s)
Ascending-take s lo hi [] h lt = absurd (omega arith)
Ascending-take zero lo hi (k ∷ ks) h lt = h.0
Ascending-take (suc s) lo hi (k ∷ ks) h lt = (h.0, Ascending-take s (suc k) hi ks h.1 (omega arith))

pub Ascending-drop :
    (s lo hi : ℕ) (ks : List ℕ)
    → Ascending lo ks hi
    → s < length ks
    → Ascending (key_at ks s) (drop s ks) hi
Ascending-drop s lo hi [] h lt = absurd (omega arith)
Ascending-drop zero lo hi (k ∷ ks) h lt = (omega arith, h.1)
Ascending-drop (suc s) lo hi (k ∷ ks) h lt = Ascending-drop s (suc k) hi ks h.1 (omega arith)

pub Ascending-le : (lo hi : ℕ) (ks : List ℕ) → Ascending lo ks hi → lo ≤ hi
Ascending-le lo hi [] h = h
Ascending-le lo hi (k ∷ ks) h = omega (arith, h.0, Ascending-le (suc k) hi ks h.1)

pub Ascending-key_at :
    (s lo hi : ℕ) (ks : List ℕ)
    → Ascending lo ks hi
    → s < length ks
    → (lo + s ≤ key_at ks s) × (key_at ks s < hi)
Ascending-key_at s lo hi [] h lt = absurd (omega arith)
Ascending-key_at zero lo hi (k ∷ ks) h lt =
    (omega (arith, h.0), omega (arith, Ascending-le (suc k) hi ks h.1))
Ascending-key_at (suc s) lo hi (k ∷ ks) h lt =
    let (l, u) = Ascending-key_at s (suc k) hi ks h.1 (omega arith) in (omega (arith, l, h.0), u)

pub find_entry-below :
    (lo hi j n : ℕ) (ks : List ℕ) (vs : List Rid)
    → Ascending lo ks hi
    → j < lo
    → find_entry n j ks vs ≡ none
unfolding find_entry
find_entry-below lo hi j zero ks vs h lt = refl
find_entry-below lo hi j (suc n) [] vs h lt = refl
find_entry-below lo hi j (suc n) (k ∷ ks) [] h lt = refl
find_entry-below lo hi j (suc n) (k ∷ ks) (v ∷ vs) h lt =
    ground (arith, h.0, find_entry-below (suc k) hi j n ks vs h.1 (omega (arith, h.0)))

pub find_entry-take :
    (s lo hi j : ℕ) (ks : List ℕ) (vs : List Rid)
    → Ascending lo ks hi
    → s < length ks
    → length vs ≡ length ks
    → j < key_at ks s
    → find_entry s j (take s ks) (take s vs) ≡ find_entry (length ks) j ks vs
unfolding find_entry
find_entry-take s lo hi j [] vs h lt len below = absurd (omega arith)
find_entry-take s lo hi j (k ∷ ks) [] h lt len below = absurd (omega arith)
find_entry-take zero lo hi j (k ∷ ks) (v ∷ vs) h lt len below =
    ground (arith, find_entry-below (suc k) hi j (length ks) ks vs h.1 (omega arith), below)
find_entry-take (suc s) lo hi j (k ∷ ks) (v ∷ vs) h lt len below =
    ground (arith, find_entry-take s (suc k) hi j ks vs h.1 (omega arith) (omega arith) below)

pub find_entry-drop :
    (s lo hi j : ℕ) (ks : List ℕ) (vs : List Rid)
    → Ascending lo ks hi
    → s < length ks
    → length vs ≡ length ks
    → key_at ks s ≤ j
    → find_entry (length (drop s ks)) j (drop s ks) (drop s vs) ≡ find_entry (length ks) j ks vs
unfolding find_entry
find_entry-drop s lo hi j [] vs h lt len above = absurd (omega arith)
find_entry-drop s lo hi j (k ∷ ks) [] h lt len above = absurd (omega arith)
find_entry-drop zero lo hi j (k ∷ ks) (v ∷ vs) h lt len above = refl
find_entry-drop (suc s) lo hi j (k ∷ ks) (v ∷ vs) h lt len above =
    let (l, u) = Ascending-key_at s (suc k) hi ks h.1 (omega arith) in
    ground (arith, find_entry-drop s (suc k) hi j ks vs h.1 (omega arith) (omega arith) above)
