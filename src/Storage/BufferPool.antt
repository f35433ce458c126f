-- ===== src/Storage/BufferPool.antt =====
-- src/storage/BufferPool.h and .cpp, over any store of pages. A page is handed out as the index of
-- its frame. A call that throws leaves what it has changed.
pub mod Indices
pub mod View
pub mod Loading
pub mod Evicting
pub mod Touching
pub mod Relisting
pub mod Vacating
pub mod Fetching
pub mod Unpinning
pub mod Flushing
use my_db.Base.{
  erase_id, nat_Eq, ℕ, zero, suc, ◌+◌, ◌-◌, ◌*◌, ◌%◌, ◌^◌, Bool, false, not, ◌||◌, Option, none,
  some, List, [], ◌∷◌, nat_eq, get_elem?, set, if◌then◌else◌,
}
use my_db.Base.Map.{Map, lookup, insert, erase}
use my_db.Common.Exception.{Result, ok, throw, runtime_error}
use my_db.Storage.PageStore.{PageStore}

abbrev pub invalid_page_id : ℕ
invalid_page_id = 0xffff_ffff

-- `file_id` is `none` for the -1 of a frame that has held nothing.
pub record PageFrame (Page : Type 0) : Type 0 where
  pub content : Page
  pub page_id : ℕ
  pub file_id : Option ℕ
  pub page_num : ℕ
  pub is_dirty : Bool
  pub pin_count : ℕ

-- (fileId << 32) | pageNum, in 64 bits.
unfoldable pub make_page_key : ℕ → ℕ → ℕ
make_page_key f n = f * 2 ^ 32 % 2 ^ 64 + n

-- The indices from `i` on, `n` of them.
unfoldable pub indices : ℕ → ℕ → List ℕ
indices i zero = []
indices i (suc n) = i ∷ indices (suc i) n

unfoldable pub unsnoc : List ℕ → Option (List ℕ × ℕ)
unsnoc [] = none
unsnoc (i ∷ is) = elim (unsnoc is) [
  | none ↦ some ([], i)
  | some (front, last) ↦ some (i ∷ front, last)
]

module _ (st : PageStore) where
  open st use {Disk, Page, read_page, write_page, zero_page}

  -- `lru` holds the unpinned frames, the most recent one first; `lruMap_` is membership in it.
  pub record BufferPool : Type 0 where
    pub disk : Disk
    pub frames : List (PageFrame Page)
    pub page_table : Map ℕ ℕ
    pub lru : List ℕ
    pub free_list : List ℕ
    pub cache_hits : ℕ
    pub cache_misses : ℕ

  abbrev empty_frame : PageFrame Page
  empty_frame = record {
    content = zero_page;
    page_id = invalid_page_id;
    file_id = none;
    page_num = 0;
    is_dirty = false;
    pin_count = 0;
  }

  unfoldable pub repeat_frame : ℕ → List (PageFrame Page)
  repeat_frame zero = []
  repeat_frame (suc n) = empty_frame ∷ repeat_frame n

  unfoldable pub new_pool : Disk → ℕ → BufferPool
  unfolding repeat_frame indices
  new_pool disk size = record {
    disk = disk;
    frames = repeat_frame size;
    page_table = [];
    lru = [];
    free_list = indices 0 size;
    cache_hits = 0;
    cache_misses = 0;
  }

  abbrev pub frame_at : BufferPool → ℕ → PageFrame Page
  frame_at b i = elim (get_elem? b.frames i) [ none ↦ empty_frame | some f ↦ f ]

  abbrev pub put_frame : ℕ → PageFrame Page → BufferPool → BufferPool
  put_frame i f b = record b { frames = set b.frames i f }

  -- A free frame, or the least recently used one that is not pinned.
  unfoldable pub find_victim_frame : BufferPool → Result ℕ × BufferPool
  find_victim_frame b = elim (b.free_list) [
    | i ∷ rest ↦ (ok i, record b { free_list = rest })
    | [] ↦ elim (unsnoc b.lru) [
      | none ↦ (throw (runtime_error "BufferPool: all frames are pinned, cannot evict" []), b)
      | some (front, i) ↦ (ok i, record b { lru = front })
    ]
  ]

  -- The page of file `f` in frame `fr` leaves the table, and is written back if it is dirty.
  unfoldable pub evict_page : ℕ → PageFrame Page → BufferPool → Result (Unit {0}) × BufferPool
  evict_page f fr b =
      if nat_eq fr.page_id invalid_page_id
      then (ok tt, b)
      else (let b' = record b { page_table = erase (make_page_key f fr.page_num) b.page_table } in
          if not fr.is_dirty
          then (ok tt, b')
          else elim (write_page b.disk f fr.page_num fr.content) [
            | throw e ↦ (throw e, b')
            | ok d ↦ (ok tt, record b' { disk = d })
          ])

  -- A frame that holds no page is left as it is.
  unfoldable pub evict : ℕ → BufferPool → Result (Unit {0}) × BufferPool
  evict i b =
      let fr = frame_at b i in elim (fr.file_id) [ none ↦ (ok tt, b) | some f ↦ evict_page f fr b ]

  -- The page is read into the frame, which is pinned once.
  unfoldable pub load : ℕ → ℕ → Bool → ℕ → BufferPool → Result ℕ × BufferPool
  load f n for_write i b = elim (read_page b.disk f n) [
    | throw e ↦ (throw e, b)
    | ok p ↦ (
      ok i,
      record (put_frame i
          (record {
            content = p;
            page_id = n;
            file_id = some f;
            page_num = n;
            is_dirty = for_write;
            pin_count = 1;
          })
          b) { page_table = insert (make_page_key f n) i b.page_table },
    )
  ]

  unfoldable pub fetch_page : ℕ → ℕ → Bool → BufferPool → Result ℕ × BufferPool
  fetch_page f n for_write b = elim (lookup (make_page_key f n) b.page_table) [
    | some i ↦
        let fr = frame_at b i in
        (
          ok i,
          record (put_frame i
              (record fr { pin_count = fr.pin_count + 1; is_dirty = fr.is_dirty || for_write }) b) {
                lru = erase_id i b.lru;
                cache_hits = b.cache_hits + 1;
              },
        )
    | none ↦
        let (victim, b₁) = find_victim_frame (record b { cache_misses = b.cache_misses + 1 }) in
        elim victim [
          | throw e ↦ (throw e, b₁)
          | ok i ↦
              let (evicted, b₂) = evict i b₁ in
              elim evicted [ throw e ↦ (throw e, b₂) | ok _ ↦ load f n for_write i b₂ ]
        ]
  ]

  unfoldable pub unpin_page : ℕ → ℕ → Bool → BufferPool → BufferPool
  unpin_page f n dirty b = elim (lookup (make_page_key f n) b.page_table) [
    | none ↦ b
    | some i ↦
        let fr = frame_at b i in
        if nat_eq fr.pin_count 0
        then b
        else (let b' =
              put_frame i
                (record fr { pin_count = fr.pin_count - 1; is_dirty = fr.is_dirty || dirty }) b in
            if nat_eq fr.pin_count 1 then record b' { lru = i ∷ b.lru } else b')
  ]

  unfoldable pub flush_page : ℕ → ℕ → BufferPool → Result (Unit {0}) × BufferPool
  flush_page f n b = elim (lookup (make_page_key f n) b.page_table) [
    | none ↦ (ok tt, b)
    | some i ↦
        let fr = frame_at b i in
        if not fr.is_dirty then (ok tt, b) else elim (write_page b.disk f n fr.content) [
          | throw e ↦ (throw e, b)
          | ok d ↦ (ok tt, record (put_frame i (record fr { is_dirty = false }) b) { disk = d })
        ]
  ]

  -- One round of `flushAllPages`: the entry's frame, if it is dirty.
  unfoldable pub flush_frame : ℕ → BufferPool → Result (Unit {0}) × BufferPool
  flush_frame i b =
      let fr = frame_at b i in
      elim (fr.file_id) [
        | none ↦ (ok tt, b)
        | some f ↦
            if not fr.is_dirty
            then (ok tt, b)
            else elim (write_page b.disk f fr.page_num fr.content) [
              | throw e ↦ (throw e, b)
              | ok d ↦ (ok tt, record (put_frame i (record fr { is_dirty = false }) b) { disk = d })
            ]
      ]

  unfoldable pub flush_entries : Map ℕ ℕ → BufferPool → Result (Unit {0}) × BufferPool
  flush_entries [] b = (ok tt, b)
  flush_entries ((_, i) ∷ rest) b =
      let (r, b') = flush_frame i b in
      elim r [ throw e ↦ (throw e, b') | ok _ ↦ flush_entries rest b' ]

  unfoldable pub flush_all_pages : BufferPool → Result (Unit {0}) × BufferPool
  flush_all_pages b = flush_entries b.page_table b
