-- ===== src/Storage/PageManager/Runs.antt =====
-- A heap file of src/storage/PageManager.cpp under insertions and deletions, from a new table.
use my_db.Base.{ℕ, ◌+◌, ◌≤◌, ◌<◌, List, [], ◌∷◌, length}
use my_db.Base.Bytes.{Bytes}
use my_db.Common.Config.{page_size}
use my_db.Common.Rid.{Rid}
use my_db.Storage.PageManager.{
  HeapFile, header_size, field, page_at, create_table, insert_tuple, delete_tuple,
}
use my_db.Storage.PageManager.Choosing.{IsHeap}
use my_db.Storage.PageManager.Entries.{
  create_table-IsHeap, insert_tuple-Inserted, read_tuple-delete_tuple,
}

pub data Call : Type 0 where
  insert : Bytes → Call
  delete : Rid → Call

unfoldable pub run_call : Call → HeapFile → HeapFile
run_call (insert bytes) h = (insert_tuple bytes h).1
run_call (delete rid) h = delete_tuple rid h

unfoldable pub run_calls : List Call → HeapFile → HeapFile
unfolding run_call
run_calls [] h = h
run_calls (x ∷ xs) h = run_calls xs (run_call x h)

-- Every tuple that is inserted has a byte and fits an empty page, and what is deleted is on a page
-- that the file has by then.
abbrev pub IsFit : List Call → HeapFile → Type 0
IsFit [] h = Unit
IsFit (insert bytes ∷ xs) h =
    (0 < length bytes)
    × (header_size + length bytes ≤ page_size)
    × IsFit xs (run_call (insert bytes) h)
IsFit (delete rid ∷ xs) h = (rid.page_id < length h) × IsFit xs (run_call (delete rid) h)

run_calls-IsHeap : (xs : List Call) (h : HeapFile) → IsHeap h → IsFit xs h → IsHeap (run_calls xs h)
unfolding run_calls run_call
run_calls-IsHeap [] h heap fit = heap
run_calls-IsHeap (insert bytes ∷ xs) h heap (some_bytes, small, fit) =
    run_calls-IsHeap xs (insert_tuple bytes h).1
      (insert_tuple-Inserted bytes h some_bytes heap small).heap fit
run_calls-IsHeap (delete rid ∷ xs) h heap (there, fit) =
    run_calls-IsHeap xs (delete_tuple rid h) (read_tuple-delete_tuple rid h heap there).0 fit

-- After insertions, each of a tuple of one byte or more that fits an empty page, and deletions, each on
-- a page that the file has, from a new table, the free space of every page of the file begins within the page, and every tuple of a
-- used slot lies behind the header and before the free space.
pub run_calls-in_bounds :
    (xs : List Call) (p s : ℕ)
    → IsFit xs create_table
    → p < length (run_calls xs create_table)
    → s < (page_at (run_calls xs create_table) p).num_slots
    → 0 < field (page_at (run_calls xs create_table) p).slot_lengths s
    → let page = page_at (run_calls xs create_table) p in
      (header_size ≤ field page.slot_directory s)
      × (field page.slot_directory s + field page.slot_lengths s ≤ page.free_space_ptr)
      × (page.free_space_ptr ≤ page_size)
run_calls-in_bounds xs p s fit lt used full =
    let page = run_calls-IsHeap xs create_table create_table-IsHeap fit p lt in
    let (above, below) = page.inside s used full in (above, below, page.to)
