-- ===== src/Index/BPlusTree/Halving.antt =====
-- The keys and children of an internal node, cut in two at a key (src/index/BPlusTree.cpp).
use my_db.Base.{
  ℕ, zero, suc, ◌≤◌, ◌<◌, ◌≡◌, refl, true, ◌||◌, List, [], ◌∷◌, arith, length, member, take, drop,
  nat_eq_iff,
}
use my_db.Index.BPlusTree.Insertion.{key_at}
use my_db.Index.BPlusTree.Ranges.{Kids, last, more, Kids-map, Kids-lt}

pub member-take-drop :
    (x n : ℕ) (xs : List ℕ) → member x xs ≡ (member x (take n xs) || member x (drop n xs))
unfolding member
member-take-drop x zero xs = refl
member-take-drop x (suc n) [] = refl
member-take-drop x (suc n) (y ∷ ys) = ground (arith, member-take-drop x n ys)

module _ {K : ℕ → ℕ → ℕ → Type 0} where
  pub Kids-take :
      {hi : ℕ} (mid : ℕ) {lo : ℕ} {ks cs : List ℕ}
      → Kids K hi lo ks cs
      → mid < length ks
      → Kids K (key_at ks mid) lo (take mid ks) (take (suc mid) cs)
  Kids-take mid (last below kid) lt = absurd (omega (arith, lt))
  Kids-take zero (more above kid rest) lt = last above kid
  Kids-take (suc mid) (more above kid rest) lt =
      more above kid (Kids-take mid rest (omega (arith, lt)))

  pub Kids-drop :
      {hi : ℕ} (mid : ℕ) {lo : ℕ} {ks cs : List ℕ}
      → Kids K hi lo ks cs
      → mid < length ks
      → Kids K hi (key_at ks mid) (drop (suc mid) ks) (drop (suc mid) cs)
  Kids-drop mid (last below kid) lt = absurd (omega (arith, lt))
  Kids-drop zero (more above kid rest) lt = rest
  Kids-drop (suc mid) (more above kid rest) lt = Kids-drop mid rest (omega (arith, lt))

  -- The ranges of the children lie in that of the node.
  pub Kids-below :
      {hi lo : ℕ} {ks cs : List ℕ}
      → Kids K hi lo ks cs
      → Kids (λ c a b. K c a b × (a < hi)) hi lo ks cs
  Kids-below (last below kid) = last below (kid, below)
  Kids-below (more above kid rest) =
      more above (kid, omega (arith, above, Kids-lt rest)) (Kids-below rest)

  pub Kids-above :
      {hi lo : ℕ} {ks cs : List ℕ}
      → Kids K hi lo ks cs
      → Kids (λ c a b. K c a b × (lo ≤ a)) hi lo ks cs
  Kids-above {hi} {lo} (last below kid) = last below (kid, omega arith)
  Kids-above {hi} {lo} (more above kid rest) =
      more above (kid, omega arith)
        (Kids-map (λ c a b w. (w.0, omega (arith, above, w.1))) (Kids-above rest))

  pub Kids-members :
      {hi lo : ℕ} {ks cs : List ℕ}
      → Kids K hi lo ks cs
      → Kids (λ c a b. K c a b × (member c cs ≡ true)) hi lo ks cs
  unfolding member
  Kids-members (last {c = c} below kid) = last below (kid, ground (arith, nat_eq_iff c c))
  Kids-members (more {c = c} above kid rest) =
      more above (kid, ground (arith, nat_eq_iff c c))
        (Kids-map (λ d a b w. (w.0, ground (arith, w.1))) (Kids-members rest))
