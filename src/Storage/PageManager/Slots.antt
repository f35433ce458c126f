-- ===== src/Storage/PageManager/Slots.antt =====
-- One slotted page of src/storage/PageManager.cpp: what holds of its header, and what a tuple that
-- is put in a slot, or taken out of one, does to the others.
use my_db.Base.{
  ℕ, zero, suc, ◌+◌, ◌%◌, ◌^◌, ◌≤◌, ◌<◌, ◌≡◌, ◌≢◌, ◌⊎◌, refl, true, false, ◌&&◌, List, arith,
  length, length-set, get_elem?-set_self, get_elem?-set_ne, set, take_of_length-le, nat_eq,
  nat_eq_iff, leb, ltb, Bool-cases, inl, inr, if◌then◌else◌,
}
use my_db.Base.Bytes.{Bytes}
use my_db.Common.Config.{page_size, max_slots_per_page}
use my_db.Storage.DiskManager.Content.{
  window, write_at, window-write_at_self, window-write_at_apart,
}
use my_db.Storage.PageManager.{SlottedPage, header_size, field, free_slot, put_tuple, read_slot}

-- Every tuple lies behind the header and before the free space.
pub record IsSlotted (page : SlottedPage) : Type 0 where
  pub from : header_size ≤ page.free_space_ptr
  pub to : page.free_space_ptr ≤ page_size
  pub directory : length page.slot_directory ≡ max_slots_per_page
  pub lengths : length page.slot_lengths ≡ max_slots_per_page
  pub slots : page.num_slots ≤ max_slots_per_page
  pub inside :
      (i : ℕ)
      → i < page.num_slots
      → 0 < field page.slot_lengths i
      → (header_size ≤ field page.slot_directory i)
        × (field page.slot_directory i + field page.slot_lengths i ≤ page.free_space_ptr)

pub field-set :
    (xs : List ℕ) (i j v : ℕ)
    → i < length xs
    → field (set xs i v) j ≡ (if nat_eq i j then v else field xs j)
field-set xs i j v lt = elim (Bool-cases (nat_eq i j)) [
  | inl same ↦
      let at : i ≡ j = (nat_eq_iff i j).0 same in
      rw (same, ← at, get_elem?-set_self xs i v lt, field) refl
  | inr other ↦
      let ne : i ≢ j = λ e. ground (arith, nat_eq_iff i j) in
      rw (other, get_elem?-set_ne xs v ne, field) refl
]

-- A slot that is found is empty, or the first that was never used.
pub free_slot-Empty :
    (n i : ℕ) (page : SlottedPage)
    → (i ≤ free_slot n i page)
      × (free_slot n i page ≤ i + n)
      × ((free_slot n i page ≡ i + n) ⊎ (field page.slot_lengths (free_slot n i page) ≡ 0))
unfolding free_slot
free_slot-Empty zero i page = (omega arith, omega arith, inl (omega arith))
free_slot-Empty (suc n) i page =
    let (above, below, which) = free_slot-Empty n (suc i) page in
    elim (Bool-cases
      (nat_eq (field page.slot_directory i) 0 && nat_eq (field page.slot_lengths i) 0)) [
        | inl here ↦ rw here (omega arith, omega arith, inr (ground (arith, here)))
        | inr away ↦ rw away (omega (arith, above), omega (arith, below), ground (arith, which))
      ]

pub small_mod : (n : ℕ) → n ≤ page_size → n % 2 ^ 16 ≡ n
small_mod n le = omega (arith, le)

module _ (page : SlottedPage) (h : IsSlotted page) (slot : ℕ) (bytes : Bytes)
    (some_bytes : 0 < length bytes) (room : page.free_space_ptr + length bytes ≤ page_size)
    (lt : slot < max_slots_per_page) (le : slot ≤ page.num_slots) where
  put_tuple-plain : put_tuple slot bytes page ≡ record page {
    slot_directory = set page.slot_directory slot page.free_space_ptr;
    slot_lengths = set page.slot_lengths slot (length bytes);
    body = write_at page.free_space_ptr bytes page.body;
    free_space_ptr = page.free_space_ptr + length bytes;
    num_slots = if leb page.num_slots slot then suc slot else page.num_slots;
  }
  unfolding put_tuple
  put_tuple-plain =
      rw
        (
          small_mod (length bytes) (omega (arith, room)),
          take_of_length-le (length bytes) bytes (omega arith),
          small_mod (page.free_space_ptr + length bytes) room,
        )
        refl

  directory-put :
      (i : ℕ)
      → field (set page.slot_directory slot page.free_space_ptr) i
        ≡ (if nat_eq slot i then page.free_space_ptr else field page.slot_directory i)
  directory-put i =
      field-set page.slot_directory slot i page.free_space_ptr (omega (arith, h.directory, lt))

  lengths-put :
      (i : ℕ)
      → field (set page.slot_lengths slot (length bytes)) i
        ≡ (if nat_eq slot i then length bytes else field page.slot_lengths i)
  lengths-put i = field-set page.slot_lengths slot i (length bytes) (omega (arith, h.lengths, lt))

  pub put_tuple-IsSlotted : IsSlotted (put_tuple slot bytes page)
  put_tuple-IsSlotted = rw put_tuple-plain (record {
    from = omega (arith, h.from);
    to = room;
    directory = omega (arith, length-set page.slot_directory slot page.free_space_ptr, h.directory);
    lengths = omega (arith, length-set page.slot_lengths slot (length bytes), h.lengths);
    slots = ground (arith, h.slots, lt);
    inside = λ i below full. elim (Bool-cases (nat_eq slot i)) [
      | inl same ↦ (
        omega (arith, rw same at (directory-put i), h.from),
        omega (arith, rw same at (directory-put i), rw same at (lengths-put i)),
      )
      | inr other ↦
          let d = rw other at (directory-put i) in
          let n = rw other at (lengths-put i) in
          let (above, inside) =
            h.inside i (ground (arith, below, other, nat_eq_iff slot i, le))
              (omega (arith, full, n)) in
          (omega (arith, d, above), omega (arith, d, n, inside))
    ];
  })

  count-put :
      (s : ℕ)
      → nat_eq slot s ≡ false
      → ltb s (if leb page.num_slots slot then suc slot else page.num_slots) ≡ ltb s page.num_slots
  count-put s other = ground (arith, other, nat_eq_iff slot s, le)

  window-put :
      (s : ℕ)
      → s < page.num_slots
      → 0 < field page.slot_lengths s
      → window
          (field page.slot_directory s)
          (field page.slot_lengths s)
          (write_at page.free_space_ptr bytes page.body)
        ≡ window (field page.slot_directory s) (field page.slot_lengths s) page.body
  window-put s below full =
      window-write_at_apart page.free_space_ptr (field page.slot_lengths s)
        (field page.slot_directory s) bytes page.body (inl (h.inside s below full).1)

  -- The slot holds the tuple, and every other slot what it held.
  pub read_slot-put_tuple :
      (s : ℕ)
      → read_slot s (put_tuple slot bytes page)
        ≡ (if nat_eq slot s then bytes else read_slot s page)
  unfolding read_slot
  read_slot-put_tuple s = elim (Bool-cases (nat_eq slot s)) [
    | inl same ↦
        let used : ltb s (if leb page.num_slots slot then suc slot else page.num_slots) ≡ true =
          ground (arith, same, nat_eq_iff slot s, le) in
        let full : ltb 0 (length bytes) ≡ true = ground (arith, some_bytes) in
        rw (put_tuple-plain, directory-put s, lengths-put s, same, used, full)
          (window-write_at_self page.free_space_ptr (length bytes) bytes page.body refl)
    | inr other ↦
        rw (put_tuple-plain, directory-put s, lengths-put s, other, count-put s other)
          (elim (Bool-cases (ltb s page.num_slots && ltb 0 (field page.slot_lengths s))) [
            | inl full ↦ rw full (window-put s (ground (arith, full)) (ground (arith, full)))
            | inr clear ↦ rw clear refl
          ])
  ]
