-- ===== src/Storage/PageManager/Entries.antt =====
-- The tuples of a heap file (src/storage/PageManager.cpp) as a map from record identifiers, under
-- `insertTuple` and `deleteTuple`.
use my_db.Base.{
  ℕ, zero, suc, ◌+◌, ◌≤◌, ◌<◌, ◌≡◌, refl, sym, ap, ◌∙◌, subst, true, false, ◌&&◌, [], ◌∷◌, ◌++◌,
  arith, length, length-append, set, nat_eq, nat_eq_iff, leb, ltb, Bool-cases, inl, inr,
  if◌then◌else◌,
}
use my_db.Base.Bytes.{Bytes}
use my_db.Common.Config.{page_size, max_slots_per_page}
use my_db.Common.Rid.{Rid, rid_eq}
use my_db.Storage.PageManager.{
  SlottedPage, HeapFile, header_size, init_page, create_table, field, page_at, find_free_page,
  free_slot, put_tuple, insert_tuple, read_slot, read_tuple, clear_slot, delete_tuple,
}
use my_db.Storage.PageManager.Clearing.{
  read_slot-clear_slot, clear_slot-IsSlotted, init_page-IsSlotted, read_slot-init_page,
  init_page-free,
}
use my_db.Storage.PageManager.Slots.{
  free_slot-Empty, small_mod, read_slot-put_tuple, put_tuple-IsSlotted,
}
use my_db.Storage.PageManager.Choosing.{
  IsHeap, page_at-append, page_at-set, append-IsHeap, set-IsHeap, append-old, Chosen,
  find_free_page-Chosen,
}

-- What an insertion of `bytes` into `h` gives.
pub record Inserted (bytes : Bytes) (h : HeapFile) (r : Rid × HeapFile) : Type 0 where
  pub heap : IsHeap r.1
  pub fresh : read_tuple r.0 h ≡ []
  pub entries :
      (other : Rid)
      → read_tuple other r.1 ≡ (if rid_eq r.0 other then bytes else read_tuple other h)

module _ (bytes : Bytes) (some_bytes : 0 < length bytes) where
  -- A tuple that is put in an empty slot of a page that has room.
  put-Inserted :
      (h h' : HeapFile) (p slot : ℕ)
      → IsHeap h'
      → ((q s : ℕ) → read_slot s (page_at h' q) ≡ read_slot s (page_at h q))
      → p < length h'
      → (page_at h' p).free_space_ptr + length bytes ≤ page_size
      → slot < max_slots_per_page
      → slot ≤ (page_at h' p).num_slots
      → read_slot slot (page_at h' p) ≡ []
      → Inserted bytes h
          (record { page_id = p; slot_num = slot }, set h' p (put_tuple slot bytes (page_at h' p)))
  unfolding read_tuple
  put-Inserted h h' p slot heap old lt room small le clear = record {
    heap =
        set-IsHeap h' p (put_tuple slot bytes (page_at h' p)) heap lt
          (put_tuple-IsSlotted (page_at h' p) (heap p lt) slot bytes some_bytes room small le);
    fresh = sym (old p slot) ∙ clear;
    entries = λ other.
        ap (read_slot other.slot_num)
          (page_at-set h' p other.page_id (put_tuple slot bytes (page_at h' p)) lt)
        ∙ elim (Bool-cases (nat_eq p other.page_id)) [
          | inl same ↦
              let at : p ≡ other.page_id = (nat_eq_iff p other.page_id).0 same in
              rw same (
                read_slot-put_tuple (page_at h' p) (heap p lt) slot bytes some_bytes room small le
                  other.slot_num
                ∙ rw (old p other.slot_num, ← at) refl)
          | inr away ↦ rw away (old other.page_id other.slot_num)
        ];
  }

  set-append_end : (h : HeapFile) (a b : SlottedPage) → set (h ++ a ∷ []) (length h) b ≡ h ++ b ∷ []
  set-append_end [] a b = refl
  set-append_end (x ∷ h) a b = ap (λ t. x ∷ t) (set-append_end h a b)

  room-put :
      (h h' : HeapFile) (p : ℕ)
      → Chosen (length bytes) h (p, h')
      → let slot = free_slot (page_at h' p).num_slots 0 (page_at h' p) in
        slot < max_slots_per_page
        → Inserted bytes h (
          record { page_id = p; slot_num = slot },
          set h' p (put_tuple slot bytes (page_at h' p)),
        )
  unfolding read_slot
  room-put h h' p at small =
      let page = page_at h' p in
      let (_, le, which) = free_slot-Empty page.num_slots 0 page in
      let clear : ltb (free_slot page.num_slots 0 page) page.num_slots
            && ltb 0 (field page.slot_lengths (free_slot page.num_slots 0 page))
          ≡ false =
        ground (arith, which) in
      put-Inserted h h' p (free_slot page.num_slots 0 page) at.heap at.old at.inside at.room small
        (omega (arith, le)) (rw clear refl)

  full-put :
      (h h' : HeapFile)
      → IsHeap h'
      → ((q s : ℕ) → read_slot s (page_at h' q) ≡ read_slot s (page_at h q))
      → header_size + length bytes ≤ page_size
      → Inserted bytes h (
        record { page_id = length h'; slot_num = 0 },
        h' ++ put_tuple 0 bytes (init_page (length h')) ∷ [],
      )
  full-put h h' heap old small =
      let fresh = init_page (length h') in
      let at : page_at (h' ++ fresh ∷ []) (length h') ≡ fresh =
        page_at-append h' fresh (length h')
        ∙ rw ((nat_eq_iff (length h') (length h')).1 refl) refl in
      let size = length-append h' (fresh ∷ []) in
      let put =
        put-Inserted h (h' ++ fresh ∷ []) (length h') 0
          (append-IsHeap h' fresh heap (init_page-IsSlotted (length h')))
          (λ q s. append-old h' q s ∙ old q s) (omega (arith, size))
          (rw (at, init_page-free (length h')) small) (omega arith) (omega arith)
          (rw at (read_slot-init_page 0 (length h'))) in
      rw (at, set-append_end h' fresh (put_tuple 0 bytes fresh)) at put

-- `insertTuple` from the length that it looks for space for.
insert_sized : ℕ → Bytes → HeapFile → Rid × HeapFile
insert_sized size bytes h =
    let (p, h₁) = find_free_page size h in
    let page = page_at h₁ p in
    let slot = free_slot page.num_slots 0 page in
    if leb max_slots_per_page slot
    then (
      record { page_id = length h₁; slot_num = 0 },
      h₁ ++ put_tuple 0 bytes (init_page (length h₁)) ∷ [],
    )
    else (record { page_id = p; slot_num = slot }, set h₁ p (put_tuple slot bytes page))

insert_tuple-sized :
    (bytes : Bytes) (h : HeapFile)
    → length bytes ≤ page_size
    → insert_tuple bytes h ≡ insert_sized (length bytes) bytes h
unfolding insert_tuple insert_sized
insert_tuple-sized bytes h le = ap (λ n. insert_sized n bytes h) (small_mod (length bytes) le)

insert_sized-Inserted :
    (bytes : Bytes) (h : HeapFile)
    → 0 < length bytes
    → IsHeap h
    → header_size + length bytes ≤ page_size
    → Inserted bytes h (insert_sized (length bytes) bytes h)
unfolding insert_sized
insert_sized-Inserted bytes h some_bytes heap small =
    let chosen = find_free_page-Chosen (length bytes) h heap small in
    let (p, h') = find_free_page (length bytes) h in
    elim (Bool-cases
      (leb max_slots_per_page (free_slot (page_at h' p).num_slots 0 (page_at h' p)))) [
        | inl full ↦ rw full (full-put bytes some_bytes h h' chosen.heap chosen.old small)
        | inr fits ↦ rw fits (room-put bytes some_bytes h h' p chosen (ground (arith, fits)))
      ]

-- Inserting a tuple that fits an empty page, of one byte or more, gives it a record identifier under
-- which nothing was read before; under it the tuple is read, and under every other what was read
-- before, and the file keeps its form.
pub insert_tuple-Inserted :
    (bytes : Bytes) (h : HeapFile)
    → 0 < length bytes
    → IsHeap h
    → header_size + length bytes ≤ page_size
    → Inserted bytes h (insert_tuple bytes h)
insert_tuple-Inserted bytes h some_bytes heap small =
    subst (Inserted bytes h) (sym (insert_tuple-sized bytes h (omega (arith, small))))
      (insert_sized-Inserted bytes h some_bytes heap small)

-- The file of a new table is sound.
pub create_table-IsHeap : IsHeap create_table
unfolding create_table
create_table-IsHeap zero lt = init_page-IsSlotted 0
create_table-IsHeap (suc p) lt = absurd (omega (arith, lt))

-- Deleting a record identifier of the file's pages leaves nothing to be read under it, and under
-- every other what was read before, and the file keeps its form.
pub read_tuple-delete_tuple :
    (rid : Rid) (h : HeapFile)
    → IsHeap h
    → rid.page_id < length h
    → IsHeap (delete_tuple rid h)
      × ((other : Rid)
          → read_tuple other (delete_tuple rid h)
            ≡ (if rid_eq rid other then [] else read_tuple other h))
unfolding read_tuple delete_tuple
read_tuple-delete_tuple rid h heap lt =
    let there : ltb rid.page_id (length h) ≡ true = ground (arith, lt) in
    let page = page_at h rid.page_id in
    let emptied = clear_slot rid.slot_num page in
    rw there (
      set-IsHeap h rid.page_id emptied heap lt
          (clear_slot-IsSlotted page (heap rid.page_id lt) rid.slot_num),
      λ other.
          ap (read_slot other.slot_num) (page_at-set h rid.page_id other.page_id emptied lt)
          ∙ elim (Bool-cases (nat_eq rid.page_id other.page_id)) [
            | inl same ↦
                let at : rid.page_id ≡ other.page_id =
                  (nat_eq_iff rid.page_id other.page_id).0 same in
                rw same (
                  read_slot-clear_slot page (heap rid.page_id lt) rid.slot_num other.slot_num
                  ∙ rw at refl)
            | inr away ↦ rw away refl
          ],
    )
