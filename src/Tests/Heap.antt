-- ===== src/Tests/Heap.antt =====
-- Heap files at small inputs (src/storage/PageManager.cpp).
use my_db.Base.{
  ℕ, ◌+◌, ◌≤◌, ◌<◌, ◌≡◌, refl, Bool, true, List, [], ◌∷◌, arith, length, replicate, if◌then◌else◌,
}
use my_db.Base.Bytes.{Bytes}
use my_db.Common.Rid.{Rid, rid_eq}
use my_db.Storage.DiskManager.Content.{byte_at, put_byte, window, write_at}
use my_db.Storage.PageManager.{
  HeapFile, header_size, field, page_at, init_page, create_table, find_page, find_free_page,
  free_slot, put_tuple, insert_tuple, read_slot, read_tuple, clear_slot, delete_tuple, scan_page,
  scan_pages, visit, scan_table,
}
use my_db.Storage.PageManager.Choosing.{IsHeap}
use my_db.Storage.PageManager.Entries.{
  Inserted, create_table-IsHeap, insert_tuple-Inserted, read_tuple-delete_tuple,
}
use my_db.Common.Config.{page_size}
use my_db.Storage.PageManager.Runs.{insert, delete, Call, run_calls, run_calls-in_bounds}
use my_db.Storage.PageManager.Scanning.{Visits, read_pages, scan_table-Visits}

program : Unit {0}
unfolding byte_at put_byte window write_at init_page create_table find_page find_free_page free_slot
    put_tuple insert_tuple read_slot read_tuple clear_slot delete_tuple scan_page scan_pages visit
    scan_table
program = tt

abbrev at_slot : ℕ → Rid
at_slot n = record { page_id = 0; slot_num = n }

abbrev one : HeapFile
one = (insert_tuple (7 ∷ 8 ∷ []) create_table).1

abbrev two : HeapFile
two = (insert_tuple (9 ∷ []) one).1

everything : Rid → Bytes → Bool
everything rid bytes = true

read_test : read_tuple (at_slot 0) two ≡ 7 ∷ 8 ∷ []
unfolding program
read_test = refl

reuse_test :
    read_tuple (at_slot 0) (insert_tuple (5 ∷ []) (delete_tuple (at_slot 0) two)).1 ≡ 5 ∷ []
unfolding program
reuse_test = refl

scan_test : scan_table everything (delete_tuple (at_slot 0) two) ≡ (at_slot 1, 9 ∷ []) ∷ []
unfolding program everything
scan_test = refl

one-IsHeap : IsHeap one
one-IsHeap =
    (insert_tuple-Inserted (7 ∷ 8 ∷ []) create_table (omega arith) create_table-IsHeap
      (omega arith)).heap

two-pages : 0 < length two
unfolding program
two-pages = omega arith

two-IsHeap : IsHeap two
two-IsHeap = (insert_tuple-Inserted (9 ∷ []) one (omega arith) one-IsHeap (omega arith)).heap

insert_tuple-Inserted_example : Inserted (9 ∷ []) one (insert_tuple (9 ∷ []) one)
insert_tuple-Inserted_example =
    insert_tuple-Inserted (9 ∷ []) one (omega arith) one-IsHeap (omega arith)

read_tuple-delete_tuple_example :
    IsHeap (delete_tuple (at_slot 0) two)
    × ((other : Rid)
        → read_tuple other (delete_tuple (at_slot 0) two)
          ≡ (if rid_eq (at_slot 0) other then [] else read_tuple other two))
read_tuple-delete_tuple_example = read_tuple-delete_tuple (at_slot 0) two two-IsHeap two-pages

scan_table-Visits_example :
    Visits everything (read_pages (length two) 0 two) (scan_table everything two)
scan_table-Visits_example = scan_table-Visits everything two two-IsHeap

-- Deleting behind the end adds a page without a free space pointer: what is inserted there lies at
-- offset 0, over the header.
abbrev beyond : HeapFile
unfolding program
beyond =
    delete_tuple (record { page_id = 1; slot_num = 0 })
      (insert_tuple (replicate 3576 7) create_table).1

behind_test : (insert_tuple (5 ∷ []) beyond).0 ≡ record { page_id = 1; slot_num = 0 }
unfolding program beyond
behind_test = refl

offset_test : field (page_at (insert_tuple (5 ∷ []) beyond).1 1).slot_directory 0 ≡ 0
unfolding program beyond
offset_test = refl

abbrev three_calls : List Call
three_calls = insert (7 ∷ 8 ∷ []) ∷ delete (at_slot 0) ∷ insert (9 ∷ []) ∷ []

run_calls-in_bounds_example :
    let page = page_at (run_calls three_calls create_table) 0 in
    (header_size ≤ field page.slot_directory 0)
    × (field page.slot_directory 0 + field page.slot_lengths 0 ≤ page.free_space_ptr)
    × (page.free_space_ptr ≤ page_size)
unfolding program run_calls
run_calls-in_bounds_example =
    run_calls-in_bounds three_calls 0 0
      (omega arith, omega arith, (omega arith, (omega arith, omega arith, tt))) (omega arith)
      (omega arith) (omega arith)
