-- ===== src/Storage/DiskManager/Pages.antt =====
-- Reading and writing pages of src/storage/DiskManager.cpp, as the interface that the pool takes.
use my_db.Base.{
  ◌∙◌, nat_Eq, ℕ, ◌+◌, ◌*◌, ◌%◌, ◌^◌, ◌≤◌, ◌≡◌, sym, ap, ◌⊎◌, inl, inr, false, ◌&&◌, some, arith,
  nat_eq, nat_eq_iff, length, length-replicate, replicate, leb, Option-cases, Bool-cases,
  if◌then◌else◌,
}
use my_db.Base.Bytes.{Bytes, bytes_eq_iff, bytes_Eq}
use my_db.Base.Map.{lookup, insert, lookup-insert}
use my_db.Common.Config.{page_size}
use my_db.Common.Exception.{ok}
use my_db.Storage.PageStore.{PageStore}
use my_db.Storage.DiskManager.{DiskManager, FileHandle, content_of, read_page, write_page}
use my_db.Storage.DiskManager.Content.{
  window, write_at, length-window, window-write_at_self, window-write_at_apart,
}

-- Two open files have two paths.
pub record IsSound (d : DiskManager) : Type 0 where
  pub apart :
      (f g : ℕ) (h k : FileHandle)
      → lookup f d.files ≡ some h
      → lookup g d.files ≡ some k
      → h.file_name ≡ k.file_name
      → f ≡ g

abbrev pub IsPage : Bytes → Type 0
IsPage p = length p ≡ page_size

pub read_page-IsPage : (d : DiskManager) (f n : ℕ) (p : Bytes) → read_page d f n ≡ ok p → IsPage p
unfolding read_page
read_page-IsPage d f n p e = elim (Option-cases (lookup f d.files)) [
  | inl no_file ↦ absurd (ground (arith, no_file))
  | inr (h, found) ↦
      let is : window (n * page_size) page_size (content_of h d) ≡ p = ground (arith, found) in
      ap length (sym is) ∙ length-window (n * page_size) page_size (content_of h d)
]

abbrev grown : ℕ → FileHandle → FileHandle
grown n h = record h { page_count = if leb h.page_count n then (n + 1) % 2 ^ 32 else h.page_count }

abbrev written : DiskManager → ℕ → ℕ → FileHandle → Bytes → DiskManager
written d f n h p = record d {
  contents = insert h.file_name (write_at (n * page_size) p (content_of h d)) d.contents;
  files = insert f (grown n h) d.files;
}

write_page-eq-written :
    (d : DiskManager) (f n : ℕ) (p : Bytes) {d' : DiskManager}
    → write_page d f n p ≡ ok d'
    → (h : FileHandle) × (lookup f d.files ≡ some h) × (d' ≡ written d f n h p)
unfolding write_page
write_page-eq-written d f n p e = elim (Option-cases (lookup f d.files)) [
  | inl no_file ↦ absurd (ground (arith, no_file))
  | inr (h, found) ↦ (h, found, ground (arith, found))
]

written-IsSound :
    (d : DiskManager) (f n : ℕ) (h : FileHandle) (p : Bytes)
    → IsSound d
    → lookup f d.files ≡ some h
    → IsSound (written d f n h p)
written-IsSound d f n h p s found = record {
  apart = λ a b x y ea eb same. ground (
    arith,
    lookup-insert f a (grown n h) d.files,
    lookup-insert f b (grown n h) d.files,
    nat_eq_iff f a,
    nat_eq_iff f b,
    s.apart a b x y,
    s.apart f b h y,
    s.apart a f x h,
  );
}

pub write_page-IsSound :
    (d : DiskManager) (f n : ℕ) (p : Bytes) (d' : DiskManager)
    → IsSound d
    → write_page d f n p ≡ ok d'
    → IsSound d'
write_page-IsSound d f n p d' s e =
    let (h, found, is) = write_page-eq-written d f n p e in
    rw is (written-IsSound d f n h p s found)

-- Two pages of one file, the one written and the one read.
window-pages :
    (n m : ℕ) (p file : Bytes)
    → IsPage p
    → window (m * page_size) page_size (write_at (n * page_size) p file)
      ≡ (if nat_eq n m then p else window (m * page_size) page_size file)
window-pages n m p file h = elim (Bool-cases (nat_eq n m)) [
  | inl same ↦
      rw (same, ← (nat_eq_iff n m).0 same) (window-write_at_self (n * page_size) page_size p file h)
  | inr other ↦
      rw other
        (window-write_at_apart (n * page_size) page_size (m * page_size) p file (beside other))
]
  where
    beside :
        nat_eq n m ≡ false
        → (m * page_size + page_size ≤ n * page_size) ⊎ (n * page_size + length p ≤ m * page_size)
    beside other = ground (arith, h)

read_page-written :
    (d : DiskManager) (f n g m : ℕ) (k : FileHandle) (p : Bytes)
    → IsSound d
    → IsPage p
    → lookup f d.files ≡ some k
    → read_page (written d f n k p) g m
      ≡ (if nat_eq f g && nat_eq n m then ok p else read_page d g m)
unfolding read_page
read_page-written d f n g m k p s h found = elim (Option-cases (lookup g d.files)) [
  | inl closed ↦ ground (arith, closed, nat_eq_iff f g, lookup-insert f g (grown n k) d.files)
  | inr (j, opened) ↦
      let new = write_at (n * page_size) p (content_of k d) in
      ground (
        arith,
        opened,
        nat_eq_iff f g,
        s.apart f g k j,
        bytes_eq_iff k.file_name j.file_name,
        lookup-insert f g (grown n k) d.files,
        lookup-insert k.file_name j.file_name new d.contents,
        window-pages n m p (content_of k d),
      )
]

-- With two files never open at one path: after a page of `page_size` bytes is written, that page is
-- read as written, and every other page of every file as before.
pub read_page-write_page :
    (d : DiskManager) (f n g m : ℕ) (p : Bytes) (d' : DiskManager)
    → IsSound d
    → IsPage p
    → write_page d f n p ≡ ok d'
    → read_page d' g m ≡ (if nat_eq f g && nat_eq n m then ok p else read_page d g m)
read_page-write_page d f n g m p d' s h e =
    let (k, found, is) = write_page-eq-written d f n p e in
    rw is (read_page-written d f n g m k p s h found)

-- The store of pages that the buffer pool is given.
abbrev pub disk_store : PageStore
disk_store = record {
  Disk = DiskManager;
  Page = Bytes;
  read_page = read_page;
  write_page = write_page;
  zero_page = replicate page_size 0;
  IsSound = IsSound;
  IsPage = IsPage;
  zero_page-IsPage = length-replicate {A = ℕ} page_size 0;
  read_page-IsPage = read_page-IsPage;
  write_page-IsSound = write_page-IsSound;
  read_page-write_page = read_page-write_page;
}
