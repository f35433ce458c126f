-- ===== src/Storage/PageManager/Choosing.antt =====
-- The page that a new tuple goes to: `findFreePage` of src/storage/PageManager.cpp.
use my_db.Base.{
  ℕ, zero, suc, ◌+◌, ◌≤◌, ◌<◌, ◌≡◌, ◌≢◌, refl, sym, ap, ◌∙◌, subst, true, some, [], ◌∷◌, ◌++◌,
  arith, length, length-append, length-set, get_elem?-append_end, get_elem?-set_self,
  get_elem?-set_ne, set, nat_eq, nat_eq_iff, leb, Bool-cases, Option-cases, inl, inr, if◌then◌else◌,
}
use my_db.Common.Config.{page_size}
use my_db.Storage.PageManager.{
  SlottedPage, HeapFile, header_size, init_page, page_at, free_space, find_page, find_free_page,
  read_slot,
}
use my_db.Storage.PageManager.Clearing.{init_page-IsSlotted, read_slot-init_page, init_page-free}
use my_db.Storage.PageManager.Slots.{IsSlotted}

-- Every page of the file is a slotted page.
abbrev pub IsHeap : HeapFile → Type 0
IsHeap h = (p : ℕ) → p < length h → IsSlotted (page_at h p)

pub page_at-append :
    (h : HeapFile) (page : SlottedPage) (p : ℕ)
    → page_at (h ++ page ∷ []) p ≡ (if nat_eq (length h) p then page else page_at h p)
page_at-append h page p = elim (Bool-cases (nat_eq (length h) p)) [
  | inl same ↦ rw (get_elem?-append_end h page p, same, page_at) refl
  | inr other ↦ rw (get_elem?-append_end h page p, other, page_at) refl
]

pub page_at-set :
    (h : HeapFile) (i p : ℕ) (page : SlottedPage)
    → i < length h
    → page_at (set h i page) p ≡ (if nat_eq i p then page else page_at h p)
page_at-set h i p page lt = elim (Bool-cases (nat_eq i p)) [
  | inl same ↦
      let at : i ≡ p = (nat_eq_iff i p).0 same in
      rw (same, ← at, get_elem?-set_self h i page lt, page_at) refl
  | inr other ↦
      let ne : i ≢ p = λ e. ground (arith, nat_eq_iff i p) in
      rw (other, get_elem?-set_ne h page ne, page_at) refl
]

-- A page behind the end has no tuple.
pub read_slot-behind : (h : HeapFile) (p s : ℕ) → length h ≤ p → read_slot s (page_at h p) ≡ []
unfolding read_slot
read_slot-behind [] p s le = ground arith
read_slot-behind (x ∷ h) zero s le = absurd (omega (arith, le))
read_slot-behind (x ∷ h) (suc p) s le = read_slot-behind h p s (omega (arith, le))

pub append-IsHeap :
    (h : HeapFile) (page : SlottedPage) → IsHeap h → IsSlotted page → IsHeap (h ++ page ∷ [])
append-IsHeap h page heap new p lt = elim (Bool-cases (nat_eq (length h) p)) [
  | inl same ↦ subst IsSlotted (sym (page_at-append h page p ∙ rw same refl)) new
  | inr other ↦
      subst IsSlotted (sym (page_at-append h page p ∙ rw other refl))
        (heap p (ground (arith, lt, other, nat_eq_iff (length h) p, length-append h (page ∷ []))))
]

pub set-IsHeap :
    (h : HeapFile) (i : ℕ) (page : SlottedPage)
    → IsHeap h
    → i < length h
    → IsSlotted page
    → IsHeap (set h i page)
set-IsHeap h i page heap lt new p lt' = elim (Bool-cases (nat_eq i p)) [
  | inl same ↦ subst IsSlotted (sym (page_at-set h i p page lt ∙ rw same refl)) new
  | inr other ↦
      subst IsSlotted (sym (page_at-set h i p page lt ∙ rw other refl))
        (heap p (omega (arith, lt', length-set h i page)))
]

-- A new page has no tuple.
pub append-old :
    (h : HeapFile) (p s : ℕ)
    → read_slot s (page_at (h ++ init_page (length h) ∷ []) p) ≡ read_slot s (page_at h p)
append-old h p s = elim (Bool-cases (nat_eq (length h) p)) [
  | inl same ↦
      ap (read_slot s) (page_at-append h (init_page (length h)) p ∙ rw same refl)
      ∙ read_slot-init_page s (length h)
      ∙ sym (read_slot-behind h p s (ground (arith, same, nat_eq_iff (length h) p)))
  | inr other ↦ ap (read_slot s) (page_at-append h (init_page (length h)) p ∙ rw other refl)
]

-- A page that is found is one of the file's, with the space.
find_page-Found :
    (required q : ℕ) (h : HeapFile) (p : ℕ)
    → find_page required q h ≡ some p
    → (i : ℕ) × (p ≡ q + i) × (i < length h) × (leb required (free_space (page_at h i)) ≡ true)
unfolding find_page
find_page-Found required q [] p e = absurd (ground (arith, e))
find_page-Found required q (page ∷ h) p e = elim (Bool-cases (leb required (free_space page))) [
  | inl fits ↦ (0, ground (arith, rw fits at e), omega arith, fits)
  | inr full ↦
      let (i, at, lt, fits) = find_page-Found required (suc q) h p (rw full at e) in
      (suc i, omega (arith, at), omega (arith, lt), fits)
]

-- Where the tuple goes: a page with room in a file with the same tuples.
pub record Chosen (required : ℕ) (h : HeapFile) (r : ℕ × HeapFile) : Type 0 where
  pub heap : IsHeap r.1
  pub old : (p s : ℕ) → read_slot s (page_at r.1 p) ≡ read_slot s (page_at h p)
  pub inside : r.0 < length r.1
  pub room : (page_at r.1 r.0).free_space_ptr + required ≤ page_size

page-room :
    (required : ℕ) (page : SlottedPage)
    → IsSlotted page
    → leb required (free_space page) ≡ true
    → page.free_space_ptr + required ≤ page_size
page-room required page s fits = ground (arith, fits, s.to)

pub find_free_page-Chosen :
    (required : ℕ) (h : HeapFile)
    → IsHeap h
    → header_size + required ≤ page_size
    → Chosen required h (find_free_page required h)
unfolding find_free_page
find_free_page-Chosen required h heap small = elim (Option-cases (find_page required 0 h)) [
  | inr (p, e) ↦
      let (i, at, lt, fits) = find_page-Found required 0 h p e in
      let same : p ≡ i = omega (arith, at) in
      rw (e, find_free_page)
        (record {
          heap = heap;
          old = λ p s. refl;
          inside = omega (arith, same, lt);
          room = rw same (page-room required (page_at h i) (heap i lt) fits);
        })
  | inl missing ↦
      rw (missing, find_free_page)
        (record {
          heap = append-IsHeap h (init_page (length h)) heap (init_page-IsSlotted (length h));
          old = λ p s. append-old h p s;
          inside = omega (arith, length-append h (init_page (length h) ∷ []));
          room =
              rw
                (
                  page_at-append h (init_page (length h)) (length h),
                  (nat_eq_iff (length h) (length h)).1 refl,
                  init_page-free (length h),
                )
                small;
        })
]
