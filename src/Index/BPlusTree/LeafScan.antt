-- ===== src/Index/BPlusTree/LeafScan.antt =====
-- One leaf of `rangeScan` (src/index/BPlusTree.cpp), against a walk over all keys.
use my_db.Base.{
  ℕ, zero, suc, ◌+◌, ◌-◌, ◌≤◌, ◌<◌, ◌≡◌, refl, sym, ap, ◌∙◌, Bool, true, false, ◌&&◌, none, some,
  List, [], ◌∷◌, ◌++◌, arith, length, leb, ltb, nat_eq_iff, Bool-cases, Option-cases, inl, inr,
  if◌then◌else◌,
}
use my_db.Common.Rid.{Rid}
use my_db.Index.BPlusTree.{scan_leaf, find_entry}
use my_db.Index.BPlusTree.Ranges.{Ascending}
use my_db.Index.BPlusTree.Entries.{Ascending-le, find_entry-below}
use my_db.Index.BPlusTree.Shape.{Content}

-- The values of the `n` keys from `a` on, in the order of the keys.
unfoldable pub collect : Content → ℕ → ℕ → List Rid
collect c a zero = []
collect c a (suc n) =
    let rest = collect c (suc a) n in elim (c a) [ none ↦ rest | some v ↦ v ∷ rest ]

-- The entries whose keys are in a range, both ends included.
abbrev pub within : ℕ → ℕ → Content → Content
within low high c j = if leb low j && leb j high then c j else none

pub collect-none :
    (c : Content) (a n : ℕ) → ((j : ℕ) → a ≤ j → j < a + n → c j ≡ none) → collect c a n ≡ []
unfolding collect
collect-none c a zero h = refl
collect-none c a (suc n) h =
    rw (h a (omega arith) (omega arith), collect)
      (collect-none c (suc a) n (λ j u v. h j (omega (arith, u)) (omega (arith, v))))

pub collect-ext :
    (c d : Content) (a n : ℕ)
    → ((j : ℕ) → a ≤ j → j < a + n → c j ≡ d j)
    → collect c a n ≡ collect d a n
unfolding collect
collect-ext c d a zero h = refl
collect-ext c d a (suc n) h =
    let rest = collect-ext c d (suc a) n (λ j u v. h j (omega (arith, u)) (omega (arith, v))) in
    let here = h a (omega arith) (omega arith) in
    elim (Option-cases (d a)) [
      | inl missing ↦ rw (here ∙ missing, missing, collect) rest
      | inr (v, there) ↦ rw (here ∙ there, there, collect) (ap (λ x. v ∷ x) rest)
    ]

pub collect-split :
    (c : Content) (m n a b k : ℕ)
    → b ≡ a + m
    → n ≡ m + k
    → collect c a n ≡ collect c a m ++ collect c b k
unfolding collect
collect-split c zero n a b k e d =
    let at : b ≡ a = omega (arith, e) in let size : n ≡ k = omega (arith, d) in rw (at, size) refl
collect-split c (suc m) zero a b k e d = absurd (omega (arith, d))
collect-split c (suc m) (suc n) a b k e d =
    let rest = collect-split c m n (suc a) b k (omega (arith, e)) (omega (arith, d)) in
    elim (Option-cases (c a)) [
      | inl missing ↦ rw (missing, collect) rest
      | inr (v, there) ↦ rw (there, collect) (ap (λ x. v ∷ x) rest)
    ]

-- Keys at the front that have no entry.
pub collect-skip :
    (c : Content) (b n : ℕ)
    → b ≤ n
    → ((j : ℕ) → j < b → c j ≡ none)
    → collect c 0 n ≡ collect c b (n - b)
collect-skip c b n le h =
    collect-split c b n 0 b (n - b) (omega arith) (omega (arith, le))
    ∙ ap (λ x. x ++ collect c b (n - b)) (collect-none c 0 b (λ j _ u. h j (omega (arith, u))))

module _ (low high : ℕ) where
  abbrev in_leaf : List ℕ → List Rid → Content
  in_leaf ks vs = within low high (λ j. find_entry (length ks) j ks vs)

  in_leaf-below :
      (lo hi j : ℕ) (ks : List ℕ) (vs : List Rid)
      → Ascending lo ks hi
      → j < lo
      → in_leaf ks vs j ≡ none
  in_leaf-below lo hi j ks vs up lt =
      ground (arith, find_entry-below lo hi j (length ks) ks vs up lt)

  in_leaf-above : (j : ℕ) (ks : List ℕ) (vs : List Rid) → high < j → in_leaf ks vs j ≡ none
  in_leaf-above j ks vs lt = ground arith

  in_leaf-rest :
      (k j : ℕ) (v : Rid) (ks : List ℕ) (vs : List Rid)
      → k < j
      → in_leaf (k ∷ ks) (v ∷ vs) j ≡ in_leaf ks vs j
  unfolding find_entry
  in_leaf-rest k j v ks vs lt = ground (arith, nat_eq_iff k j)

  in_leaf-here :
      (k : ℕ) (v : Rid) (ks : List ℕ) (vs : List Rid)
      → in_leaf (k ∷ ks) (v ∷ vs) k ≡ (if leb low k && leb k high then some v else none)
  unfolding find_entry
  in_leaf-here k v ks vs = rw ((nat_eq_iff k k).1 refl) refl

  collect-if :
      (b : Bool) (v : Rid) (c : Content) (k n : ℕ)
      → c k ≡ (if b then some v else none)
      → collect c k (suc n) ≡ (if b then v ∷ collect c (suc k) n else collect c (suc k) n)
  unfolding collect
  collect-if true v c k n e = rw (e, collect) refl
  collect-if false v c k n e = rw (e, collect) refl

  collect-cons :
      (lo hi k : ℕ) (v : Rid) (ks : List ℕ) (vs : List Rid)
      → Ascending lo (k ∷ ks) hi
      → collect (in_leaf (k ∷ ks) (v ∷ vs)) lo (hi - lo) ≡ (
          if leb low k && leb k high
          then v ∷ collect (in_leaf ks vs) (suc k) (hi - suc k)
          else collect (in_leaf ks vs) (suc k) (hi - suc k))
  collect-cons lo hi k v ks vs (le, up) =
      let f = in_leaf (k ∷ ks) (v ∷ vs) in
      let end = Ascending-le (suc k) hi ks up in
      let at_k : Ascending k (k ∷ ks) hi = (omega arith, up) in
      let rest : collect f (suc k) (hi - suc k) ≡ collect (in_leaf ks vs) (suc k) (hi - suc k) =
        collect-ext f (in_leaf ks vs) (suc k) (hi - suc k)
          (λ j u _. in_leaf-rest k j v ks vs (omega (arith, u))) in
      collect-split f (k - lo) (hi - lo) lo k (suc (hi - suc k)) (omega (arith, le))
        (omega (arith, le, end))
      ∙ ap (λ x. x ++ collect f k (suc (hi - suc k)))
          (collect-none f lo (k - lo)
            (λ j _ u. in_leaf-below k hi j (k ∷ ks) (v ∷ vs) at_k (omega (arith, u, le))))
      ∙ collect-if (leb low k && leb k high) v f k (hi - suc k) (in_leaf-here k v ks vs)
      ∙ rw rest refl

  -- The values that are found are those of the leaf in range, and a key above the range is one of
  -- the leaf's.
  pub scan_leaf-collect :
      (lo hi : ℕ) (ks : List ℕ) (vs : List Rid)
      → Ascending lo ks hi
      → length vs ≡ length ks
      → ((scan_leaf (length ks) low high ks vs).0 ≡ collect (in_leaf ks vs) lo (hi - lo))
        × ((scan_leaf (length ks) low high ks vs).1 ≡ true → high < hi)
  unfolding scan_leaf find_entry
  scan_leaf-collect lo hi [] vs up same = (
    sym (collect-none (in_leaf [] vs) lo (hi - lo) (λ j _ _. ground arith)),
    λ e. absurd (ground arith),
  )
  scan_leaf-collect lo hi (k ∷ ks) [] up same = absurd (omega (arith, same))
  scan_leaf-collect lo hi (k ∷ ks) (v ∷ vs) (le, up) same =
      let (found, above) = scan_leaf-collect (suc k) hi ks vs up (omega (arith, same)) in
      elim (Bool-cases (ltb high k)) [
        | inl stop ↦
            let past : high < k = ground (arith, stop) in
            let end = Ascending-le (suc k) hi ks up in
            let at_k : Ascending k (k ∷ ks) hi = (omega arith, up) in
            rw stop (
              sym (
                  collect-none (in_leaf (k ∷ ks) (v ∷ vs)) lo (hi - lo) (λ j _ _.
                    elim (Bool-cases (ltb j k)) [
                      | inl before ↦
                          in_leaf-below k hi j (k ∷ ks) (v ∷ vs) at_k (ground (arith, before))
                      | inr after ↦ in_leaf-above j (k ∷ ks) (v ∷ vs) (ground (arith, after, past))
                    ])),
              λ _. omega (arith, past, end),
            )
        | inr go ↦ rw go (rw found (sym (collect-cons lo hi k v ks vs (le, up))), above)
      ]
