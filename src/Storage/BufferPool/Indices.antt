-- ===== src/Storage/BufferPool/Indices.antt =====
-- Lists of frame indices without repetition, and what taking one out leaves.
use my_db.Base.{
  member-erase_id, erase_id, nat_Eq, ℕ, ◌≡◌, ◌≢◌, refl, Bool, true, false, not, ◌&&◌, ◌||◌, none,
  some, List, [], ◌∷◌, arith, nat_eq, nat_eq_iff, member, Option-cases, inl, inr,
}
use my_db.Storage.BufferPool.{unsnoc}

unfoldable pub distinct : List ℕ → Bool
distinct [] = true
distinct (i ∷ is) = not (member i is) && distinct is

unsnoc-cons : (i : ℕ) (is : List ℕ) → unsnoc (i ∷ is) ≢ none
unfolding unsnoc
unsnoc-cons i is h = elim (Option-cases (unsnoc is)) [
  | inl e ↦ ground (arith, e)
  | inr (x, e) ↦ ground (arith, e)
]

unsnoc-eq-none : (is : List ℕ) → unsnoc is ≡ none → is ≡ []
unsnoc-eq-none [] h = refl
unsnoc-eq-none (i ∷ is) h = absurd (unsnoc-cons i is h)

pub member-unsnoc :
    (is : List ℕ) {front : List ℕ} {last : ℕ} (j : ℕ)
    → unsnoc is ≡ some (front, last)
    → member j is ≡ (member j front || nat_eq last j)
unfolding unsnoc member
member-unsnoc [] j h = absurd (ground arith)
member-unsnoc (i ∷ is) j h = elim (Option-cases (unsnoc is)) [
  | inl e ↦ rw (unsnoc-eq-none is e) (ground (arith, e))
  | inr ((f, l), e) ↦ ground (arith, e, member-unsnoc is j e)
]

pub distinct-unsnoc :
    (is : List ℕ) {front : List ℕ} {last : ℕ}
    → distinct is ≡ true
    → unsnoc is ≡ some (front, last)
    → (distinct front ≡ true) × (member last front ≡ false)
unfolding unsnoc distinct member
distinct-unsnoc [] d h = absurd (ground arith)
distinct-unsnoc (i ∷ is) d h = elim (Option-cases (unsnoc is)) [
  | inl e ↦ ground (arith, e)
  | inr ((f, l), e) ↦
      let (df, out) = distinct-unsnoc is (ground arith) e in
      ground (arith, e, member-unsnoc is i e, member-unsnoc is l e, nat_eq_iff i l, nat_eq_iff l i)
]

pub distinct-erase_id : (i : ℕ) (js : List ℕ) → distinct js ≡ true → distinct (erase_id i js) ≡ true
unfolding erase_id distinct
distinct-erase_id i [] h = refl
distinct-erase_id i (k ∷ js) h = ground (arith, distinct-erase_id i js, member-erase_id k i js)
