-- ===== src/Tests/Pages.antt =====
-- Pages at small inputs (src/storage).
use my_db.Base.{
  nat_Eq, ℕ, ◌*◌, ◌≡◌, ◌≢◌, refl, true, false, some, [], ◌∷◌, replicate, length-replicate,
  nat_eq_iff, member, erase_id, arith,
}
use my_db.Base.Bytes.{Bytes, codes}
use my_db.Base.Map.{lookup, insert, erase}
use my_db.Common.Config.{page_size}
use my_db.Common.Exception.{ok}
use my_db.Storage.DiskManager.{DiskManager, read_page, write_page}
use my_db.Storage.DiskManager.Content.{write_at}
use my_db.Storage.DiskManager.Pages.{IsSound as DiskIsSound, disk_store, read_page-write_page}
use my_db.Storage.BufferPool.{
  BufferPool, make_page_key, frame_at, repeat_frame, indices, new_pool, unsnoc, find_victim_frame,
  evict, evict_page, load, fetch_page, flush_page, unpin_page,
}
use my_db.Storage.BufferPool.View.{IsValid, view, IsSound}
use my_db.Storage.BufferPool.Fetching.{fetch_page-view, fetch_page-pinned}
use my_db.Storage.BufferPool.Flushing.{flush_page-view}
use my_db.Storage.BufferPool.Unpinning.{new_pool-IsSound, unpin_page-view}

program : Unit {0}
unfolding lookup insert erase member erase_id read_page write_page make_page_key repeat_frame
    indices new_pool unsnoc find_victim_frame evict evict_page load fetch_page unpin_page
program = tt

-- One open file, which is empty.
abbrev one_file : DiskManager
one_file = record {
  contents = (codes "t", []) ∷ [];
  files = (1, record { file_name = codes "t"; page_count = 0 }) ∷ [];
  next_file_id = 2;
}

one_file-IsSound : DiskIsSound one_file
unfolding program
one_file-IsSound = record {
  apart = λ f g h k e d same. ground (arith, nat_eq_iff 1 f, nat_eq_iff 1 g);
}

abbrev pool : BufferPool disk_store
unfolding program
pool = new_pool disk_store one_file 2

abbrev pinned_pool : BufferPool disk_store
unfolding program
pinned_pool = (fetch_page disk_store 1 0 true pool).1

page-IsValid : IsValid 1 0
page-IsValid = record { file = omega arith; page = omega arith }

next_page-IsValid : IsValid 1 1
next_page-IsValid = record { file = omega arith; page = omega arith }

pool-IsSound : IsSound disk_store pool
unfolding program
pool-IsSound = new_pool-IsSound disk_store one_file 2 one_file-IsSound

fetch_test : (fetch_page disk_store 1 0 true pool).0 ≡ ok 0
unfolding program
fetch_test = refl

fetch_page-view_example :
    IsSound disk_store (fetch_page disk_store 1 0 true pool).1
    × (ok (frame_at disk_store (fetch_page disk_store 1 0 true pool).1 0).content
        ≡ view disk_store pool 1 0)
    × ((frame_at disk_store (fetch_page disk_store 1 0 true pool).1 0).pin_count ≢ 0)
    × (view disk_store (fetch_page disk_store 1 0 true pool).1 1 1 ≡ view disk_store pool 1 1)
fetch_page-view_example =
    fetch_page-view disk_store pool 1 0 0 true 1 1 pool-IsSound page-IsValid next_page-IsValid
      fetch_test

pinned_pool-IsSound : IsSound disk_store pinned_pool
unfolding program pinned_pool
pinned_pool-IsSound =
    (fetch_page-view disk_store pool 1 0 0 true 1 1 pool-IsSound page-IsValid next_page-IsValid
      fetch_test).0

next_test : (fetch_page disk_store 1 1 false pinned_pool).0 ≡ ok 1
unfolding program
next_test = refl

found_test : lookup (make_page_key 1 0) pinned_pool.page_table ≡ some 0
unfolding program
found_test = refl

pin_test : (frame_at disk_store pinned_pool 0).pin_count ≢ 0
unfolding program
pin_test h = omega (arith, h)

fetch_page-pinned_example :
    (lookup (make_page_key 1 0) (fetch_page disk_store 1 1 false pinned_pool).1.page_table ≡ some 0)
    × (ok (frame_at disk_store (fetch_page disk_store 1 1 false pinned_pool).1 0).content
        ≡ ok (frame_at disk_store pinned_pool 0).content)
    × ((frame_at disk_store (fetch_page disk_store 1 1 false pinned_pool).1 0).pin_count
        ≡ (frame_at disk_store pinned_pool 0).pin_count)
fetch_page-pinned_example =
    fetch_page-pinned disk_store pinned_pool 1 1 1 false 1 0 0 pinned_pool-IsSound next_page-IsValid
      page-IsValid next_test found_test pin_test

unpin_page-view_example :
    IsSound disk_store (unpin_page disk_store 1 0 true pinned_pool)
    × (view disk_store (unpin_page disk_store 1 0 true pinned_pool) 1 0
        ≡ view disk_store pinned_pool 1 0)
unpin_page-view_example = unpin_page-view disk_store pinned_pool 1 0 true 1 0 pinned_pool-IsSound

abbrev filled : Bytes
filled = replicate page_size 7

abbrev written_disk : DiskManager
written_disk = record {
  contents = (codes "t", write_at (3 * page_size) filled []) ∷ [];
  files = (1, record { file_name = codes "t"; page_count = 4 }) ∷ [];
  next_file_id = 2;
}

write_test : write_page one_file 1 3 filled ≡ ok written_disk
unfolding program
write_test = refl

read_page-write_page_example : read_page written_disk 1 3 ≡ ok filled
read_page-write_page_example =
    read_page-write_page one_file 1 3 1 3 filled written_disk one_file-IsSound
      (length-replicate {A = ℕ} page_size 7) write_test

flush_test : (flush_page disk_store 1 0 pinned_pool).0 ≡ ok tt
unfolding program pinned_pool flush_page
flush_test = refl

flush_page-view_example :
    IsSound disk_store (flush_page disk_store 1 0 pinned_pool).1
    × (read_page (flush_page disk_store 1 0 pinned_pool).1.disk 1 0
        ≡ view disk_store pinned_pool 1 0)
    × (view disk_store (flush_page disk_store 1 0 pinned_pool).1 1 1
        ≡ view disk_store pinned_pool 1 1)
flush_page-view_example =
    flush_page-view disk_store pinned_pool 1 0 1 1 pinned_pool-IsSound page-IsValid flush_test
