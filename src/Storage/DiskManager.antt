-- ===== src/Storage/DiskManager.antt =====
-- src/storage/DiskManager.h and .cpp. The file system is a map from paths to contents; the data
-- directory can be written, so that creating a file succeeds.
pub mod Content
pub mod Pages
use my_db.Base.{
  nat_Eq, ℕ, ◌+◌, ◌*◌, ◌/◌, ◌%◌, ◌^◌, Option, none, some, List, [], ◌∷◌, ◌++◌, length, replicate,
  leb, if◌then◌else◌,
}
use my_db.Base.Bytes.{Bytes, bytes_Eq, codes}
use my_db.Base.Map.{Map, lookup, insert, erase}
use my_db.Common.Config.{page_size}
use my_db.Common.Exception.{Result, ok, throw, runtime_error}
use my_db.Storage.DiskManager.Content.{window, write_at}

pub record FileHandle : Type 0 where
  pub file_name : Bytes
  pub page_count : ℕ

pub record DiskManager : Type 0 where
  pub contents : Map Bytes Bytes
  pub files : Map ℕ FileHandle
  pub next_file_id : ℕ

-- The constructor, over the files that are there.
abbrev pub new_disk : Map Bytes Bytes → DiskManager
new_disk contents = record { contents = contents; files = []; next_file_id = 1 }

abbrev pub data_path : Bytes → Bytes
data_path name = codes "minidb_data/" ++ name

-- The file is emptied if it is there.
unfoldable pub create_file : Bytes → DiskManager → ℕ × DiskManager
create_file name d =
    let path = data_path name in
    (
      d.next_file_id,
      record {
        contents = insert path [] d.contents;
        files = insert d.next_file_id (record { file_name = path; page_count = 0 }) d.files;
        next_file_id = d.next_file_id + 1;
      },
    )

-- `none` stands for the -1 of a file that cannot be opened.
unfoldable pub open_file : Bytes → DiskManager → Option ℕ × DiskManager
open_file name d = elim (lookup (data_path name) d.contents) [
  | none ↦ (none, d)
  | some content ↦ (
    some d.next_file_id,
    record d {
      files =
          insert d.next_file_id
            (record {
              file_name = data_path name;
              page_count = length content % 2 ^ 32 / page_size;
            })
            d.files;
      next_file_id = d.next_file_id + 1;
    },
  )
]

unfoldable pub close_file : ℕ → DiskManager → DiskManager
close_file id d = record d { files = erase id d.files }

abbrev pub content_of : FileHandle → DiskManager → Bytes
content_of h d = elim (lookup h.file_name d.contents) [ none ↦ [] | some c ↦ c ]

-- What lies beyond the end of the file is read as zeros.
unfoldable pub read_page : DiskManager → ℕ → ℕ → Result Bytes
read_page d id n = elim (lookup id d.files) [
  | none ↦ throw (runtime_error "DiskManager: invalid file ID" [])
  | some h ↦ ok (window (n * page_size) page_size (content_of h d))
]

unfoldable pub write_page : DiskManager → ℕ → ℕ → Bytes → Result DiskManager
write_page d id n page = elim (lookup id d.files) [
  | none ↦ throw (runtime_error "DiskManager: invalid file ID" [])
  | some h ↦ ok (record d {
    contents = insert h.file_name (write_at (n * page_size) page (content_of h d)) d.contents;
    files =
        insert id
          (record h { page_count = if leb h.page_count n then (n + 1) % 2 ^ 32 else h.page_count })
          d.files;
  })
]

unfoldable pub get_file_page_count : ℕ → DiskManager → ℕ
get_file_page_count id d = elim (lookup id d.files) [ none ↦ 0 | some h ↦ h.page_count ]

-- A zeroed page behind the last one, and its number.
unfoldable pub allocate_new_page : ℕ → DiskManager → Result (ℕ × DiskManager)
allocate_new_page id d = elim (lookup id d.files) [
  | none ↦ throw (runtime_error "DiskManager: invalid file ID" [])
  | some h ↦ ok (
    h.page_count,
    record d {
      contents =
          insert h.file_name
            (write_at (h.page_count * page_size) (replicate page_size 0) (content_of h d))
            d.contents;
      files = insert id (record h { page_count = (h.page_count + 1) % 2 ^ 32 }) d.files;
    },
  )
]
