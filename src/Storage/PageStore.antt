-- ===== src/Storage/PageStore.antt =====
-- What the buffer pool (src/storage/BufferPool.cpp) relies on of the disk manager
-- (src/storage/DiskManager.cpp): reading and writing whole pages.
use my_db.Base.{ℕ, ◌≡◌, ◌&&◌, nat_eq, if◌then◌else◌}
use my_db.Common.Exception.{Result, ok}

pub record PageStore : Type 1 where
  pub Disk : Type 0
  pub Page : Type 0
  pub read_page : Disk → ℕ → ℕ → Result Page
  pub write_page : Disk → ℕ → ℕ → Page → Result Disk
  pub zero_page : Page
  -- the disks and the pages that the laws are about
  pub IsSound : Disk → Type 0
  pub IsPage : Page → Type 0
  pub zero_page-IsPage : IsPage zero_page
  pub read_page-IsPage : (d : Disk) (f n : ℕ) (p : Page) → read_page d f n ≡ ok p → IsPage p
  pub write_page-IsSound :
      (d : Disk) (f n : ℕ) (p : Page) (d' : Disk)
      → IsSound d
      → write_page d f n p ≡ ok d'
      → IsSound d'
  -- a write changes the page written, and no other
  pub read_page-write_page :
      (d : Disk) (f n g m : ℕ) (p : Page) (d' : Disk)
      → IsSound d
      → IsPage p
      → write_page d f n p ≡ ok d'
      → read_page d' g m ≡ (if nat_eq f g && nat_eq n m then ok p else read_page d g m)
