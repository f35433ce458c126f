-- ===== src/Storage/PageManager/Scanning.antt =====
-- `scanTable` of src/storage/PageManager.cpp, against reading every slot of every page.
use my_db.Base.{
  ℕ, zero, suc, ◌+◌, ◌≤◌, ◌<◌, ◌≡◌, refl, sym, ap, ◌∙◌, Bool, true, false, List, [], ◌∷◌, ◌++◌,
  arith, length, ltb, Bool-cases, inl, inr,
}
use my_db.Base.Bytes.{Bytes}
use my_db.Common.Config.{max_slots_per_page}
use my_db.Common.Rid.{Rid}
use my_db.Storage.DiskManager.Content.{window, length-window}
use my_db.Storage.PageManager.{
  HeapFile, field, page_at, read_slot, read_tuple, scan_page, scan_pages, visit, scan_table,
}
use my_db.Storage.PageManager.Choosing.{IsHeap}

-- A tuple that was read goes in the list, if there is one.
unfoldable pub keep : Rid → Bytes → List (Rid × Bytes) → List (Rid × Bytes)
keep rid [] rest = rest
keep rid (b ∷ bs) rest = (rid, b ∷ bs) ∷ rest

-- What is read under the slots of page `p` from `s` on, `n` of them.
unfoldable pub read_slots : ℕ → ℕ → ℕ → HeapFile → List (Rid × Bytes)
unfolding keep read_tuple
read_slots zero s p h = []
read_slots (suc n) s p h =
    let rid : Rid = record { page_id = p; slot_num = s } in
    keep rid (read_tuple rid h) (read_slots n (suc s) p h)

-- The calls of a callback on the tuples: each of them in order, up to the first where it returns
-- false, which is the last.
pub data Visits (callback : Rid → Bytes → Bool)
    : List (Rid × Bytes) → List (Rid × Bytes) → Type 0 where
  done : Visits callback [] []
  stop :
      (rid : Rid) (bytes : Bytes) (ts : List (Rid × Bytes))
      → callback rid bytes ≡ false
      → Visits callback ((rid, bytes) ∷ ts) ((rid, bytes) ∷ [])
  go :
      (rid : Rid) (bytes : Bytes) (ts calls : List (Rid × Bytes))
      → callback rid bytes ≡ true
      → Visits callback ts calls
      → Visits callback ((rid, bytes) ∷ ts) ((rid, bytes) ∷ calls)

visit-Visits :
    (callback : Rid → Bytes → Bool) (ts : List (Rid × Bytes))
    → Visits callback ts (visit callback ts)
unfolding visit
visit-Visits callback [] = done
visit-Visits callback ((rid, bytes) ∷ ts) = elim (Bool-cases (callback rid bytes)) [
  | inl more ↦ rw more (go rid bytes ts (visit callback ts) more (visit-Visits callback ts))
  | inr last ↦ rw last (stop rid bytes ts last)
]

-- What is read under all slots of the `n` pages from `p` on.
unfoldable pub read_pages : ℕ → ℕ → HeapFile → List (Rid × Bytes)
unfolding read_slots
read_pages zero p h = []
read_pages (suc n) p h = read_slots max_slots_per_page 0 p h ++ read_pages n (suc p) h

keep-full :
    (rid : Rid) (bytes : Bytes) (rest : List (Rid × Bytes))
    → 0 < length bytes
    → keep rid bytes rest ≡ (rid, bytes) ∷ rest
unfolding keep
keep-full rid [] rest lt = absurd (omega (arith, lt))
keep-full rid (b ∷ bs) rest lt = refl

add_zero : (p : ℕ) → p + 0 ≡ p
add_zero p = omega arith

zero_add : (i : ℕ) → i ≡ 0 + i
zero_add i = omega arith

add_suc : (p i : ℕ) → p + suc i ≡ suc p + i
add_suc p i = omega arith

module _ (h : HeapFile) (p : ℕ) where
  read_slots-behind : (n s : ℕ) → (page_at h p).num_slots ≤ s → read_slots n s p h ≡ []
  unfolding read_slots read_slot keep
  read_slots-behind zero s le = refl
  read_slots-behind (suc n) s le =
      let behind : ltb s (page_at h p).num_slots ≡ false = ground (arith, le) in
      rw (behind, read_slots) (read_slots-behind n (suc s) (omega (arith, le)))

  scan_page-read_slots :
      (n m s : ℕ)
      → s + n ≡ (page_at h p).num_slots
      → n ≤ m
      → scan_page n s p (page_at h p) ≡ read_slots m s p h
  unfolding scan_page read_slots read_slot keep
  scan_page-read_slots zero m s e le = sym (read_slots-behind m s (omega (arith, e)))
  scan_page-read_slots (suc n) zero s e le = absurd (omega (arith, le))
  scan_page-read_slots (suc n) (suc m) s e le =
      let page = page_at h p in
      let rest = scan_page-read_slots n m (suc s) (omega (arith, e)) (omega (arith, le)) in
      let used : ltb s page.num_slots ≡ true = ground (arith, e) in
      let rid : Rid = record { page_id = p; slot_num = s } in
      let start = field page.slot_directory s in
      let size = field page.slot_lengths s in
      elim (Bool-cases (ltb 0 size)) [
        | inl full ↦
            let some_bytes : 0 < length (window start size page.body) =
              ground (arith, full, length-window start size page.body) in
            rw (used, full, scan_page, read_slots)
              (rw rest (
                sym (
                  keep-full rid (window start size page.body) (read_slots m (suc s) p h)
                    some_bytes)))
        | inr clear ↦ rw (used, clear, scan_page, read_slots) rest
      ]

scan_pages-read_pages :
    (h : HeapFile) (p : ℕ) (pages : HeapFile)
    → ((i : ℕ) → page_at pages i ≡ page_at h (p + i))
    → IsHeap pages
    → scan_pages p pages ≡ read_pages (length pages) p h
unfolding scan_pages read_pages
scan_pages-read_pages h p [] same heap = refl
scan_pages-read_pages h p (page ∷ pages) same heap =
    let at : page ≡ page_at h p = same 0 ∙ ap (page_at h) (add_zero p) in
    let slots = (heap 0 (omega arith)).slots in
    let size : 0 + page.num_slots ≡ (page_at h p).num_slots =
      omega (arith, ap (λ x. x.num_slots) at) in
    let first : scan_page page.num_slots 0 p page ≡ read_slots max_slots_per_page 0 p h =
      ap (scan_page page.num_slots 0 p) at
      ∙ scan_page-read_slots h p page.num_slots max_slots_per_page 0 size slots in
    let rest : scan_pages (suc p) pages ≡ read_pages (length pages) (suc p) h =
      scan_pages-read_pages h (suc p) pages (λ i. same (suc i) ∙ ap (page_at h) (add_suc p i))
        (λ i lt. heap (suc i) (omega (arith, lt))) in
    rw (first, rest) refl

-- A scan calls the callback on what is read under every slot of every page, page by page and slot by
-- slot, where there is something, up to the first call that returns false.
pub scan_table-Visits :
    (callback : Rid → Bytes → Bool) (h : HeapFile)
    → IsHeap h
    → Visits callback (read_pages (length h) 0 h) (scan_table callback h)
unfolding scan_table
scan_table-Visits callback h heap =
    rw (scan_pages-read_pages h 0 h (λ i. ap (page_at h) (zero_add i)) heap)
      (visit-Visits callback (read_pages (length h) 0 h))
