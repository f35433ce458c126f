-- ===== src/Index/BPlusTree/Scanning.antt =====
-- `rangeScan` of src/index/BPlusTree.cpp on a sound tree.
use my_db.Base.{
  ℕ, zero, suc, ◌-◌, ◌≤◌, ◌<◌, ◌≡◌, ◌⊎◌, refl, sym, ap, ◌∙◌, Bool, true, false, ◌&&◌, Option, none,
  some, List, [], ◌++◌, arith, length, append-nil, leb, nat_eq, nat_eq_iff, Bool-cases, inl, inr,
  if◌then◌else◌,
}
use my_db.Index.BPlusTree.{BPlusTree, leaf, node_at, find_leaf, scan_leaf, scan_from, range_scan}
use my_db.Index.BPlusTree.Ranges.{Kids, last, more, Kids-find}
use my_db.Index.BPlusTree.Shape.{
  Shape, Content, Nodes, top, IsNext, IsTree, IsWhole, IsSound, empty, tree, leaf_entry-IsLeaf,
}
use my_db.Index.BPlusTree.Searching.{find_leaf-LeafOf}
use my_db.Index.BPlusTree.LeafScan.{
  collect, within, collect-none, collect-ext, collect-split, collect-skip, scan_leaf-collect,
}

-- How many numbers below `n` pass a test.
unfoldable count : (ℕ → Bool) → ℕ → ℕ
count f zero = 0
count f (suc n) = let rest = count f n in if f n then suc rest else rest

count-le : (f : ℕ → Bool) (n : ℕ) → count f n ≤ n
unfolding count
count-le f zero = omega arith
count-le f (suc n) = ground (arith, count-le f n)

module _ (f h : ℕ → Bool) (weaker : (x : ℕ) → h x ≡ true → f x ≡ true) where
  count_mono : (n : ℕ) → count h n ≤ count f n
  unfolding count
  count_mono zero = omega arith
  count_mono (suc n) = ground (arith, count_mono n, weaker n)

  count-less : (n i : ℕ) → i < n → f i ≡ true → h i ≡ false → count h n < count f n
  unfolding count
  count-less zero i lt on off = absurd (omega (arith, lt))
  count-less (suc n) i lt on off = elim (Bool-cases (nat_eq n i)) [
    | inl same ↦
        let at : n ≡ i = (nat_eq_iff n i).0 same in
        let on_n : f n ≡ true = ap f at ∙ on in
        let off_n : h n ≡ false = ap h at ∙ off in ground (arith, count_mono n, on_n, off_n)
    | inr other ↦ ground (arith, weaker n, count-less n i (ground (arith, nat_eq_iff n i)) on off)
  ]

Kids-wide :
    {K : ℕ → ℕ → ℕ → Type 0} {hi lo : ℕ} {ks cs : List ℕ}
    → Kids K hi lo ks cs
    → Kids (λ c a b. K c a b × (a < b)) hi lo ks cs
Kids-wide (last lt kid) = last lt (kid, lt)
Kids-wide (more lt kid rest) = more lt (kid, lt) (Kids-wide rest)

next-cases :
    (g : Shape) (ns : Nodes) (hi : ℕ) (next : Option ℕ)
    → IsNext g ns hi next
    → ((next ≡ none) × (hi ≡ top))
      ⊎ ((n : ℕ) × (next ≡ some n) × (g.live n ≡ true) × ((ns n).type ≡ leaf) × (g.lo n ≡ hi))
next-cases g ns hi none end = inl (refl, end)
next-cases g ns hi (some n) (live, is, at) = inr (n, refl, live, is, at)

module _ (t : BPlusTree) {g : Shape} {c : Content} {r : ℕ}
    (s : IsTree g c (length t.nodes) r (node_at t)) (w : IsWhole g) where
  -- The range of a node has a key.
  wide : (i : ℕ) → g.live i ≡ true → g.lo i < g.hi i
  wide i live = elim (Bool-cases (node_at t i).is_root) [
    | inl flag ↦
        let at = s.root_only i live flag in
        rw at (omega (arith, s.root_lo, s.root_outer, w.outer r))
    | inr free ↦
        let p = s.place i (w.attached i live) free in
        let (a, b, (kid, lt)) =
          Kids-find i (Kids-wide (s.inner (g.parent i) p.live p.type).kids) p.among in
        omega (arith, kid.lo, kid.outer, w.outer i, lt)
  ]

  -- The nodes from `a` on.
  abbrev ahead : ℕ → ℕ → Bool
  ahead a x = g.live x && leb a (g.lo x)

  ahead-less :
      (i n : ℕ)
      → g.live i ≡ true
      → g.lo n ≡ g.hi i
      → count (ahead (g.lo n)) (length t.nodes) < count (ahead (g.lo i)) (length t.nodes)
  ahead-less i n live at =
      let lt = wide i live in
      count-less (ahead (g.lo i)) (ahead (g.lo n)) (λ x h. ground (arith, h, at, lt))
        (length t.nodes) i (s.bound i live) (ground (arith, live)) (ground (arith, at, lt))

  ahead-some : (i : ℕ) → g.live i ≡ true → 0 < count (ahead (g.lo i)) (length t.nodes)
  ahead-some i live = omega (
    arith,
    count-less (ahead (g.lo i)) (λ _. false) (λ x h. absurd (ground (arith, h))) (length t.nodes) i
        (s.bound i live) (ground (arith, live)) refl,
  )

  hi-le_top :
      (fuel i : ℕ)
      → g.live i ≡ true
      → (node_at t i).type ≡ leaf
      → count (ahead (g.lo i)) (length t.nodes) ≤ fuel
      → g.hi i ≤ top
  hi-le_top zero i live is lt = absurd (omega (arith, lt, ahead-some i live))
  hi-le_top (suc fuel) i live is lt =
      elim (next-cases g (node_at t) (g.hi i) (node_at t i).next_leaf_idx (s.chain i live is)) [
        | inl (_, end) ↦ omega (arith, end)
        | inr (n, _, live_n, is_n, at) ↦ omega (
          arith,
          at,
          wide n live_n,
          hi-le_top fuel n live_n is_n (omega (arith, lt, ahead-less i n live at)),
        )
      ]

  module _ (low high : ℕ) where
    abbrev range : Content
    range = within low high c

    -- What one leaf gives.
    leaf-collect :
        (i : ℕ)
        → g.live i ≡ true
        → (node_at t i).type ≡ leaf
        → let n = node_at t i in
          let r = scan_leaf n.size low high n.keys n.values in
          (r.0 ≡ collect range (g.lo i) (g.hi i - g.lo i)) × (r.1 ≡ true → high < g.hi i)
    leaf-collect i live is =
        let n = node_at t i in
        let h = s.leaves i live is in
        let (found, above) =
          scan_leaf-collect low high (g.lo i) (g.hi i) n.keys n.values h.ascending h.values in
        let lt = wide i live in
        rw h.size (
          found
              ∙ collect-ext _ range (g.lo i) (g.hi i - g.lo i) (λ j u v.
                ap (λ x. if leb low j && leb j high then x else none)
                  (rw h.size at (leaf_entry-IsLeaf h j u (omega (arith, v, lt))))),
          above,
        )

    scan_from-none : (fuel : ℕ) → scan_from fuel low high t none ≡ []
    unfolding scan_from
    scan_from-none zero = refl
    scan_from-none (suc fuel) = refl

    scan_from-stop :
        (fuel i : ℕ)
        → let n = node_at t i in
          let r = scan_leaf n.size low high n.keys n.values in
          r.1 ≡ true → scan_from (suc fuel) low high t (some i) ≡ r.0
    unfolding scan_from
    scan_from-stop fuel i e = rw (e, scan_from) refl

    scan_from-go :
        (fuel i : ℕ)
        → let n = node_at t i in
          let r = scan_leaf n.size low high n.keys n.values in
          r.1 ≡ false
          → scan_from (suc fuel) low high t (some i)
            ≡ r.0 ++ scan_from fuel low high t n.next_leaf_idx
    unfolding scan_from
    scan_from-go fuel i e = rw (e, scan_from) refl

    range-split :
        (i : ℕ)
        → g.live i ≡ true
        → g.hi i ≤ top
        → collect range (g.lo i) (top - g.lo i)
          ≡ collect range (g.lo i) (g.hi i - g.lo i) ++ collect range (g.hi i) (top - g.hi i)
    range-split i live bound =
        let lt = wide i live in
        collect-split range (g.hi i - g.lo i) (top - g.lo i) (g.lo i) (g.hi i) (top - g.hi i)
          (omega (arith, lt)) (omega (arith, lt, bound))

    scan_from-collect :
        (fuel i : ℕ)
        → g.live i ≡ true
        → (node_at t i).type ≡ leaf
        → count (ahead (g.lo i)) (length t.nodes) ≤ fuel
        → scan_from fuel low high t (some i) ≡ collect range (g.lo i) (top - g.lo i)
    unfolding collect
    scan_from-collect zero i live is lt = absurd (omega (arith, lt, ahead-some i live))
    scan_from-collect (suc fuel) i live is lt =
        let n = node_at t i in
        let (found, above) = leaf-collect i live is in
        let bound = hi-le_top (suc fuel) i live is lt in
        elim (Bool-cases (scan_leaf n.size low high n.keys n.values).1) [
          | inl stop ↦
              let past = above stop in
              scan_from-stop fuel i stop
              ∙ found
              ∙ sym (append-nil (collect range (g.lo i) (g.hi i - g.lo i)))
              ∙ ap (λ x. collect range (g.lo i) (g.hi i - g.lo i) ++ x)
                  (sym
                    (collect-none range (g.hi i) (top - g.hi i) (λ j u _. ground (arith, u, past))))
              ∙ sym (range-split i live bound)
          | inr going ↦
              let rest : scan_from fuel low high t n.next_leaf_idx
                  ≡ collect range (g.hi i) (top - g.hi i) =
                elim (next-cases g (node_at t) (g.hi i) n.next_leaf_idx (s.chain i live is)) [
                  | inl (none_left, end) ↦ rw (none_left, end) (scan_from-none fuel)
                  | inr (m, next, live_m, is_m, here) ↦
                      rw (next, ← here)
                        (scan_from-collect fuel m live_m is_m
                          (omega (arith, lt, ahead-less i m live here)))
                ] in
              scan_from-go fuel i going
              ∙ ap (λ x. x ++ scan_from fuel low high t n.next_leaf_idx) found
              ∙ ap (λ x. collect range (g.lo i) (g.hi i - g.lo i) ++ x) rest
              ∙ sym (range-split i live bound)
        ]

-- A range scan of a sound tree from a key below 2 ^ 32 gives what a walk over all keys below 2 ^ 32
-- collects: the values of the keys from `low` to `high`, in the order of the keys.
pub range_scan-collect :
    (c : Content) (t : BPlusTree) (low high : ℕ)
    → IsSound c t
    → low < top
    → range_scan low high t ≡ collect (within low high c) 0 top
unfolding range_scan find_leaf
range_scan-collect c t low high (empty none_yet nothing) lt =
    rw (none_yet, range_scan)
      (sym (collect-none (within low high c) 0 top (λ j _ _. ground (arith, nothing j))))
range_scan-collect c t low high (tree g r root s w) lt =
    let (i, found, at) = find_leaf-LeafOf t s w low root lt in
    rw (found, range_scan)
      (scan_from-collect t s w low high (length t.nodes) i at.live at.type
          (count-le (ahead t s w (g.lo i)) (length t.nodes))
        ∙ sym (
            collect-skip (within low high c) (g.lo i) top (omega (arith, at.above, lt))
              (λ j u. ground (arith, u, at.above))))
