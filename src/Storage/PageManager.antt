-- ===== src/Storage/PageManager.antt =====
-- src/storage/PageManager.h and .cpp: the pages of one heap file, as they are once the buffer
-- pool is written back. The header's fields stand beside the page's bytes, which are used from `header_size` on.
pub mod Slots
pub mod Clearing
pub mod Choosing
pub mod Entries
pub mod Runs
pub mod Scanning
use my_db.Base.{
  ℕ, zero, suc, ◌+◌, ◌-◌, ◌*◌, ◌%◌, ◌^◌, Bool, true, false, ◌&&◌, Option, none, some, List, [], ◌∷◌,
  ◌++◌, length, get_elem?, set, replicate, take, nat_eq, leb, ltb, if◌then◌else◌,
}
use my_db.Base.Bytes.{Bytes}
use my_db.Common.Config.{page_size, max_slots_per_page}
use my_db.Common.Rid.{Rid}
use my_db.Storage.DiskManager.Content.{window, write_at}

pub record SlottedPage : Type 0 where
  pub page_id : ℕ
  pub num_slots : ℕ
  pub free_space_ptr : ℕ
  pub slot_directory : List ℕ
  pub slot_lengths : List ℕ
  pub body : Bytes

-- `sizeof(SlottedPageHeader)`
abbrev pub header_size : ℕ
header_size = 8 + 2 * max_slots_per_page + 2 * max_slots_per_page

unfoldable pub init_page : ℕ → SlottedPage
init_page id = record {
  page_id = id;
  num_slots = 0;
  free_space_ptr = header_size;
  slot_directory = replicate max_slots_per_page 0;
  slot_lengths = replicate max_slots_per_page 0;
  body = replicate page_size 0;
}

-- A field of an array of the header.
abbrev pub field : List ℕ → ℕ → ℕ
field xs i = elim (get_elem? xs i) [ none ↦ 0 | some x ↦ x ]

-- The pages of a file; a page behind its end is read as zeros.
abbrev pub HeapFile : Type 0
HeapFile = List SlottedPage

abbrev pub page_at : HeapFile → ℕ → SlottedPage
page_at h p = elim (get_elem? h p) [
  | none ↦ record {
    page_id = 0;
    num_slots = 0;
    free_space_ptr = 0;
    slot_directory = [];
    slot_lengths = [];
    body = [];
  }
  | some page ↦ page
]

-- The file of a new table.
unfoldable pub create_table : HeapFile
unfolding init_page
create_table = init_page 0 ∷ []

-- The 16-bit difference.
abbrev pub free_space : SlottedPage → ℕ
free_space page = (page_size + 2 ^ 16 - page.free_space_ptr) % 2 ^ 16

-- The loop over the pages from number `p` on.
unfoldable pub find_page : ℕ → ℕ → HeapFile → Option ℕ
find_page required p [] = none
find_page required p (page ∷ pages) =
    let rest = find_page required (suc p) pages in
    if leb required (free_space page) then some p else rest

unfoldable pub find_free_page : ℕ → HeapFile → ℕ × HeapFile
unfolding find_page init_page
find_free_page required h = elim (find_page required 0 h) [
  | some p ↦ (p, h)
  | none ↦ (length h, h ++ init_page (length h) ∷ [])
]

-- The first of the slots from `i` on, `n` of them, that is empty, or else the one behind them.
unfoldable pub free_slot : ℕ → ℕ → SlottedPage → ℕ
free_slot zero i page = i
free_slot (suc n) i page =
    let rest = free_slot n (suc i) page in
    if nat_eq (field page.slot_directory i) 0 && nat_eq (field page.slot_lengths i) 0
    then i
    else rest

-- A tuple at the free space pointer; `data_len` is a 16-bit number.
unfoldable pub put_tuple : ℕ → Bytes → SlottedPage → SlottedPage
unfolding write_at
put_tuple slot bytes page =
    let data_len = length bytes % 2 ^ 16 in
    record page {
      slot_directory = set page.slot_directory slot page.free_space_ptr;
      slot_lengths = set page.slot_lengths slot data_len;
      body = write_at page.free_space_ptr (take data_len bytes) page.body;
      free_space_ptr = (page.free_space_ptr + data_len) % 2 ^ 16;
      num_slots = if leb page.num_slots slot then suc slot else page.num_slots;
    }

unfoldable pub insert_tuple : Bytes → HeapFile → Rid × HeapFile
unfolding find_free_page free_slot put_tuple
insert_tuple bytes h =
    let (p, h₁) = find_free_page (length bytes % 2 ^ 16) h in
    let page = page_at h₁ p in
    let slot = free_slot page.num_slots 0 page in
    if leb max_slots_per_page slot
    then (
      record { page_id = length h₁; slot_num = 0 },
      h₁ ++ put_tuple 0 bytes (init_page (length h₁)) ∷ [],
    )
    else (record { page_id = p; slot_num = slot }, set h₁ p (put_tuple slot bytes page))

-- The bytes of a slot, none where it is empty or behind the last.
unfoldable pub read_slot : ℕ → SlottedPage → Bytes
unfolding window
read_slot slot page =
    if ltb slot page.num_slots && ltb 0 (field page.slot_lengths slot)
    then window (field page.slot_directory slot) (field page.slot_lengths slot) page.body
    else []

-- The bytes that are copied out; their number is the result.
unfoldable pub read_tuple : Rid → HeapFile → Bytes
unfolding read_slot
read_tuple rid h = read_slot rid.slot_num (page_at h rid.page_id)

unfoldable pub clear_slot : ℕ → SlottedPage → SlottedPage
clear_slot slot page =
    if ltb slot page.num_slots
    then record page {
      slot_directory = set page.slot_directory slot 0;
      slot_lengths = set page.slot_lengths slot 0;
    }
    else page

-- A page of zeros, as the file is extended with.
abbrev zero_page : SlottedPage
zero_page = record {
  page_id = 0;
  num_slots = 0;
  free_space_ptr = 0;
  slot_directory = replicate max_slots_per_page 0;
  slot_lengths = replicate max_slots_per_page 0;
  body = replicate page_size 0;
}

-- The page is fetched for writing: behind the end of the file it has no slot to empty, and writing
-- it back extends the file up to it.
unfoldable pub delete_tuple : Rid → HeapFile → HeapFile
unfolding clear_slot
delete_tuple rid h =
    if ltb rid.page_id (length h)
    then set h rid.page_id (clear_slot rid.slot_num (page_at h rid.page_id))
    else h ++ replicate (suc rid.page_id - length h) zero_page

-- The slots of page `p` from `s` on, `n` of them, that have a tuple.
unfoldable pub scan_page : ℕ → ℕ → ℕ → SlottedPage → List (Rid × Bytes)
unfolding window
scan_page zero s p page = []
scan_page (suc n) s p page =
    let rest = scan_page n (suc s) p page in
    if ltb 0 (field page.slot_lengths s)
    then (
      record { page_id = p; slot_num = s },
      window (field page.slot_directory s) (field page.slot_lengths s) page.body,
    )
      ∷ rest
    else rest

unfoldable pub scan_pages : ℕ → HeapFile → List (Rid × Bytes)
unfolding scan_page
scan_pages p [] = []
scan_pages p (page ∷ pages) = scan_page page.num_slots 0 p page ++ scan_pages (suc p) pages

-- The calls of the callback, up to the first that returns false.
unfoldable pub visit : (Rid → Bytes → Bool) → List (Rid × Bytes) → List (Rid × Bytes)
visit callback [] = []
visit callback ((rid, bytes) ∷ ts) =
    let rest = visit callback ts in
    if callback rid bytes then (rid, bytes) ∷ rest else (rid, bytes) ∷ []

unfoldable pub scan_table : (Rid → Bytes → Bool) → HeapFile → List (Rid × Bytes)
unfolding scan_pages visit
scan_table callback h = visit callback (scan_pages 0 h)
