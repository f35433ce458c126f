-- ===== src/Storage/PageManager/Clearing.antt =====
-- A slot of a page that is emptied, and a new page (src/storage/PageManager.cpp).
use my_db.Base.{
  ℕ, ◌<◌, ◌≡◌, refl, false, [], arith, length-set, length-replicate, set, nat_eq, nat_eq_iff, ltb,
  Bool-cases, inl, inr, if◌then◌else◌,
}
use my_db.Common.Config.{max_slots_per_page}
use my_db.Storage.PageManager.{SlottedPage, header_size, init_page, field, read_slot, clear_slot}
use my_db.Storage.PageManager.Slots.{IsSlotted, field-set}

module _ (page : SlottedPage) (h : IsSlotted page) (slot : ℕ) where
  clear_slot-used :
      slot < page.num_slots
      → clear_slot slot page ≡ record page {
        slot_directory = set page.slot_directory slot 0;
        slot_lengths = set page.slot_lengths slot 0;
      }
  unfolding clear_slot
  clear_slot-used lt = ground (arith, lt)

  clear_slot-unused : ltb slot page.num_slots ≡ false → clear_slot slot page ≡ page
  unfolding clear_slot
  clear_slot-unused behind = rw behind refl

  directory-clear :
      slot < page.num_slots
      → (i : ℕ)
      → field (set page.slot_directory slot 0) i
        ≡ (if nat_eq slot i then 0 else field page.slot_directory i)
  directory-clear lt i =
      field-set page.slot_directory slot i 0 (omega (arith, h.directory, h.slots, lt))

  lengths-clear :
      slot < page.num_slots
      → (i : ℕ)
      → field (set page.slot_lengths slot 0) i
        ≡ (if nat_eq slot i then 0 else field page.slot_lengths i)
  lengths-clear lt i = field-set page.slot_lengths slot i 0 (omega (arith, h.lengths, h.slots, lt))

  pub clear_slot-IsSlotted : IsSlotted (clear_slot slot page)
  clear_slot-IsSlotted = elim (Bool-cases (ltb slot page.num_slots)) [
    | inr behind ↦ rw (clear_slot-unused behind) h
    | inl there ↦
        let lt : slot < page.num_slots = ground (arith, there) in
        rw (clear_slot-used lt) (record {
          from = h.from;
          to = h.to;
          directory = omega (arith, length-set page.slot_directory slot 0, h.directory);
          lengths = omega (arith, length-set page.slot_lengths slot 0, h.lengths);
          slots = h.slots;
          inside = λ i below full. elim (Bool-cases (nat_eq slot i)) [
            | inl same ↦ absurd (omega (arith, full, rw same at (lengths-clear lt i)))
            | inr other ↦
                let d = rw other at (directory-clear lt i) in
                let n = rw other at (lengths-clear lt i) in
                let (above, inside) = h.inside i below (omega (arith, full, n)) in
                (omega (arith, d, above), omega (arith, d, n, inside))
          ];
        })
  ]

  -- The slot is empty, and every other slot holds what it held.
  pub read_slot-clear_slot :
      (s : ℕ)
      → read_slot s (clear_slot slot page) ≡ (if nat_eq slot s then [] else read_slot s page)
  unfolding read_slot
  read_slot-clear_slot s = elim (Bool-cases (ltb slot page.num_slots)) [
    | inr behind ↦ rw (clear_slot-unused behind) (elim (Bool-cases (nat_eq slot s)) [
      | inl same ↦
          let none_there : ltb s page.num_slots ≡ false =
            ground (arith, behind, same, nat_eq_iff slot s) in
          rw (same, none_there) refl
      | inr other ↦ rw other refl
    ])
    | inl there ↦
        let lt : slot < page.num_slots = ground (arith, there) in
        rw (clear_slot-used lt, directory-clear lt s, lengths-clear lt s)
          (elim (Bool-cases (nat_eq slot s)) [
            | inl same ↦ rw same (ground arith)
            | inr other ↦ rw other refl
          ])
  ]

pub init_page-IsSlotted : (id : ℕ) → IsSlotted (init_page id)
unfolding init_page
init_page-IsSlotted id = record {
  from = omega arith;
  to = omega arith;
  directory = length-replicate {A = ℕ} max_slots_per_page 0;
  lengths = length-replicate {A = ℕ} max_slots_per_page 0;
  slots = omega arith;
  inside = λ i below full. absurd (omega (arith, below));
}

pub read_slot-init_page : (s id : ℕ) → read_slot s (init_page id) ≡ []
unfolding read_slot init_page
read_slot-init_page s id = let nothing : ltb s 0 ≡ false = ground arith in rw nothing refl

pub init_page-free : (id : ℕ) → (init_page id).free_space_ptr ≡ header_size
unfolding init_page
init_page-free id = refl

pub init_page-num_slots : (id : ℕ) → (init_page id).num_slots ≡ 0
unfolding init_page
init_page-num_slots id = refl
