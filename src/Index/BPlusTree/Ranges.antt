-- ===== src/Index/BPlusTree/Ranges.antt =====
-- Ascending keys within a range, and the children of a node between its keys
-- (src/index/BPlusTree.cpp).
use my_db.Base.{
  ℕ, zero, suc, ◌≤◌, ◌<◌, ◌≡◌, refl, ap, true, false, some, List, [], ◌∷◌, ◌||◌, ◌≢◌, arith, length,
  member, nat_eq, nat_eq_iff, ltb, get_elem?, leb, Bool-cases, inl, inr,
}
use my_db.Index.BPlusTree.{child_pos}
use my_db.Index.BPlusTree.Insertion.{lower_bound, insert_at}

-- Strictly ascending keys, none below `lo` and all below `hi`.
abbrev pub Ascending : ℕ → List ℕ → ℕ → Type 0
Ascending lo [] hi = lo ≤ hi
Ascending lo (k ∷ ks) hi = lo ≤ k × Ascending (suc k) ks hi

-- One child more than there are keys; each has the range between the keys beside it.
pub data Kids (K : ℕ → ℕ → ℕ → Type 0) (hi : ℕ) : ℕ → List ℕ → List ℕ → Type 0 where
  last : {lo c : ℕ} → lo < hi → K c lo hi → Kids K hi lo [] (c ∷ [])
  more :
      {lo k c : ℕ} {ks cs : List ℕ}
      → lo < k
      → K c lo k
      → Kids K hi k ks cs
      → Kids K hi lo (k ∷ ks) (c ∷ cs)

module _ {K : ℕ → ℕ → ℕ → Type 0} {hi : ℕ} where
  pub Kids-lt : {lo : ℕ} {ks cs : List ℕ} → Kids K hi lo ks cs → lo < hi
  Kids-lt (last lt kid) = lt
  Kids-lt (more lt kid rest) = omega (arith, lt, Kids-lt rest)

  -- The child that the search goes on in.
  pub child_pos-Kids :
      (key : ℕ) {lo : ℕ} {ks cs : List ℕ}
      → Kids K hi lo ks cs
      → lo ≤ key
      → key < hi
      → (c a b : ℕ) × (get_elem? cs (child_pos (length ks) key ks) ≡ some c)
        × K c a b
        × (a ≤ key)
        × (key < b)
  unfolding child_pos
  child_pos-Kids key {lo} (last {c = c} lt kid) above below = (c, lo, hi, refl, kid, above, below)
  child_pos-Kids key {lo} (more {k = k} {c = c} lt kid rest) above below =
      elim (Bool-cases (leb k key)) [
        | inl right ↦
            let (d, a, b, at, child, l, u) =
              child_pos-Kids key rest (ground (arith, right)) below in
            (d, a, b, rw right at, child, l, u)
        | inr left ↦ (c, lo, k, rw left refl, kid, above, ground (arith, left))
      ]

pub Kids-map :
    {K L : ℕ → ℕ → ℕ → Type 0} {hi lo : ℕ} {ks cs : List ℕ}
    → ((c a b : ℕ) → K c a b → L c a b)
    → Kids K hi lo ks cs
    → Kids L hi lo ks cs
Kids-map f (last lt kid) = last lt (f _ _ _ kid)
Kids-map f (more lt kid rest) = more lt (f _ _ _ kid) (Kids-map f rest)

pub member-insert_at :
    (x i a : ℕ) (xs : List ℕ) → member x (insert_at i a xs) ≡ (nat_eq a x || member x xs)
unfolding member insert_at
member-insert_at x zero a xs = refl
member-insert_at x (suc i) a [] = refl
member-insert_at x (suc i) a (y ∷ ys) = ground (arith, member-insert_at x i a ys)

-- What a child `l` that is cut at `key` becomes, with its other half behind it.
pub record Cut (K L : ℕ → ℕ → ℕ → Type 0) (lo : ℕ → ℕ) (l key right : ℕ) : Type 0 where
  pub begins : (c a b : ℕ) → K c a b → lo c ≡ a
  pub keeps : (c a b : ℕ) → l ≢ c → K c a b → L c a b
  pub first : (a b : ℕ) → K l a b → L l a key
  pub second : (a b : ℕ) → K l a b → L right key b
  pub above : lo l < key
  pub below : (a b : ℕ) → K l a b → key < b

module _ {K L : ℕ → ℕ → ℕ → Type 0} {f : ℕ → ℕ} {l key right : ℕ} (cut : Cut K L f l key right)
    {hi : ℕ} where
  pub Kids-begin : {lo : ℕ} {ks cs : List ℕ} → Kids K hi lo ks cs → member l cs ≡ true → lo ≤ f l
  unfolding member
  Kids-begin (last {c = c} lt kid) m =
      let same : c ≡ l = (nat_eq_iff c l).0 (ground arith) in
      omega (arith, cut.begins c _ _ kid, ap f same)
  Kids-begin (more {c = c} lt kid rest) m = elim (Bool-cases (nat_eq c l)) [
    | inl same ↦ ground (arith, cut.begins c _ _ kid, nat_eq_iff c l)
    | inr other ↦ omega (arith, lt, Kids-begin rest (ground (arith, other)))
  ]

  Kids-away : {lo : ℕ} {ks cs : List ℕ} → Kids K hi lo ks cs → f l < lo → Kids L hi lo ks cs
  Kids-away (last {c = c} lt kid) away =
      last lt (cut.keeps c _ _ (λ e. ground (arith, cut.begins c _ _ kid)) kid)
  Kids-away (more {c = c} lt kid rest) away =
      more lt (cut.keeps c _ _ (λ e. ground (arith, cut.begins c _ _ kid)) kid)
        (Kids-away rest (omega arith))

  pub Kids-insert_at :
      {lo : ℕ} {ks cs : List ℕ}
      → Kids K hi lo ks cs
      → member l cs ≡ true
      → Kids L hi lo
          (insert_at (lower_bound key ks) key ks)
          (insert_at (suc (lower_bound key ks)) right cs)
  unfolding member insert_at lower_bound
  Kids-insert_at {lo} (last {c = c} lt kid) m =
      let same : c ≡ l = (nat_eq_iff c l).0 (ground arith) in
      let kid_l : K l lo hi = rw (← same) kid in
      rw same (
        more (omega (arith, cut.begins l _ _ kid_l, cut.above)) (cut.first lo hi kid_l)
          (last (cut.below lo hi kid_l) (cut.second lo hi kid_l)))
  Kids-insert_at {lo} (more {k = k} {c = c} {cs = cs} lt kid rest) m =
      elim (Bool-cases (nat_eq c l)) [
        | inl is ↦
            let same : c ≡ l = (nat_eq_iff c l).0 is in
            let kid_l : K l lo k = rw (← same) kid in
            let stop : ltb k key ≡ false = ground (arith, cut.below lo k kid_l) in
            rw (stop, same)
              (more (omega (arith, cut.begins l _ _ kid_l, cut.above)) (cut.first lo k kid_l) (
                more (cut.below lo k kid_l) (cut.second lo k kid_l)
                  (Kids-away rest (omega (arith, cut.begins l _ _ kid_l, lt)))))
        | inr other ↦
            let there : member l cs ≡ true = ground (arith, m, other) in
            let go : ltb k key ≡ true = ground (arith, Kids-begin rest there, cut.above) in
            rw go (
              more lt (cut.keeps c _ _ (λ e. ground (arith, other, nat_eq_iff c l)) kid)
                (Kids-insert_at rest there))
      ]

pub Kids-find :
    {K : ℕ → ℕ → ℕ → Type 0} {hi lo : ℕ} {ks cs : List ℕ} (l : ℕ)
    → Kids K hi lo ks cs
    → member l cs ≡ true
    → (a b : ℕ) × K l a b
unfolding member
Kids-find {K} {hi} {lo} l (last {c = c} lt kid) m =
    let same : c ≡ l = (nat_eq_iff c l).0 (ground arith) in (lo, hi, rw (← same) kid)
Kids-find {K} {hi} {lo} l (more {k = k} {c = c} {cs = cs} lt kid rest) m =
    elim (Bool-cases (nat_eq c l)) [
      | inl is ↦ let same : c ≡ l = (nat_eq_iff c l).0 is in (lo, k, rw (← same) kid)
      | inr other ↦
          let there : member l cs ≡ true = ground (arith, m, other) in Kids-find l rest there
    ]
