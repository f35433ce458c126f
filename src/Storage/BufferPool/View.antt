-- ===== src/Storage/BufferPool/View.antt =====
-- What a pool of src/storage/BufferPool.cpp shows of the disk, and the invariant of its frames,
-- its table and its two lists of frames.
use my_db.Base.{
  nat_Eq, ℕ, ◌-◌, ◌^◌, ◌<◌, ◌≡◌, ◌≢◌, refl, ◌&&◌, nat_eq, Bool-cases, inl, inr, true, false, none,
  some, arith, member, get_elem?,
}
use my_db.Base.Map.{lookup}
use my_db.Common.Exception.{Result, ok}
use my_db.Storage.PageStore.{PageStore}
use my_db.Storage.BufferPool.{PageFrame, BufferPool, make_page_key, frame_at}
use my_db.Storage.BufferPool.Indices.{distinct}

-- An `int` that is not negative, and a `uint32_t` other than INVALID_PAGE_ID.
pub record IsValid (f n : ℕ) : Type 0 where
  pub file : f < 2 ^ 31
  pub page : n < 2 ^ 32 - 1

pub make_page_key-injective :
    (f n g m : ℕ)
    → IsValid f n
    → IsValid g m
    → make_page_key f n ≡ make_page_key g m
    → (f ≡ g) × (n ≡ m)
unfolding make_page_key
make_page_key-injective f n g m v w e =
    (omega (arith, v.file, v.page, w.file, w.page), omega (arith, v.file, v.page, w.file, w.page))

-- Pages with different keys are different.
pub pages_apart :
    (f n g m : ℕ) → make_page_key f n ≢ make_page_key g m → (nat_eq f g && nat_eq n m) ≡ false
pages_apart f n g m ne = elim (Bool-cases (nat_eq f g && nat_eq n m)) [
  | inl same ↦
      let fs : f ≡ g = ground (arith, same) in
      let ns : n ≡ m = ground (arith, same) in absurd (ne (rw (fs, ns) refl))
  | inr other ↦ other
]

module _ (st : PageStore) where
  -- The page as a caller sees it: its frame's bytes, or else those on the disk.
  unfoldable pub view : BufferPool st → ℕ → ℕ → Result st.Page
  view b f n = elim (lookup (make_page_key f n) b.page_table) [
    | some i ↦ ok (frame_at st b i).content
    | none ↦ st.read_page b.disk f n
  ]

  pub view-found :
      (b : BufferPool st) (f n : ℕ) {i : ℕ}
      → lookup (make_page_key f n) b.page_table ≡ some i
      → view b f n ≡ ok (frame_at st b i).content
  unfolding view
  view-found b f n h = rw (h, view) refl

  pub view-missing :
      (b : BufferPool st) (f n : ℕ)
      → lookup (make_page_key f n) b.page_table ≡ none
      → view b f n ≡ st.read_page b.disk f n
  unfolding view
  view-missing b f n h = rw (h, view) refl

  -- Frame `i` holds page `n` of file `f`; if it is not dirty, the disk has the same bytes.
  pub record Holds (b : BufferPool st) (f n i : ℕ) (fr : PageFrame st.Page) : Type 0 where
    pub at : get_elem? b.frames i ≡ some fr
    pub file : fr.file_id ≡ some f
    pub num : fr.page_num ≡ n
    pub id : fr.page_id ≡ n
    pub page : st.IsPage fr.content
    pub clean : fr.is_dirty ≡ false → st.read_page b.disk f n ≡ ok fr.content

  pub Holds-frame_at :
      {b : BufferPool st} {f n i : ℕ} {fr : PageFrame st.Page}
      → Holds b f n i fr
      → frame_at st b i ≡ fr
  Holds-frame_at h = rw (h.at, frame_at) refl

  -- A frame holds one page.
  pub Holds-unique :
      {b : BufferPool st} {f n g m i j : ℕ} {fr gr : PageFrame st.Page}
      → Holds b f n i fr
      → Holds b g m j gr
      → i ≡ j
      → make_page_key f n ≡ make_page_key g m
  Holds-unique {b} {f} {n} {g} {m} {i} {j} {fr} {gr} h k same =
      let fs : f ≡ g = ground (arith, h.at, h.file, rw (← same) at k.at, k.file) in
      let ns : n ≡ m = ground (arith, h.at, h.num, rw (← same) at k.at, k.num) in rw (fs, ns) refl

  -- Where an entry of the table leads.
  pub record Entry (b : BufferPool st) (k i : ℕ) : Type 0 where
    pub file : ℕ
    pub page : ℕ
    pub frame : PageFrame st.Page
    pub valid : IsValid file page
    pub key : k ≡ make_page_key file page
    pub holds : Holds b file page i frame

  -- A frame that may be evicted: it has an entry and no pin.
  pub record Idle (b : BufferPool st) (i : ℕ) : Type 0 where
    pub key : ℕ
    pub found : lookup key b.page_table ≡ some i
    pub unpinned : (frame_at st b i).pin_count ≡ 0

  pub record Unused (b : BufferPool st) (i : ℕ) : Type 0 where
    pub frame : PageFrame st.Page
    pub at : get_elem? b.frames i ≡ some frame
    pub file : frame.file_id ≡ none

  pub record IsSound (b : BufferPool st) : Type 0 where
    pub disk : st.IsSound b.disk
    pub entry : (k i : ℕ) → lookup k b.page_table ≡ some i → Entry b k i
    pub idle : (i : ℕ) → member i b.lru ≡ true → Idle b i
    pub unused : (i : ℕ) → member i b.free_list ≡ true → Unused b i
    pub lru_once : distinct b.lru ≡ true
    pub free_once : distinct b.free_list ≡ true

  -- The two pools show the same pages, and the frames that were pinned stay where they are.
  pub record Keeps (b b' : BufferPool st) : Type 0 where
    pub views : (f n : ℕ) → IsValid f n → view b' f n ≡ view b f n
    pub pinned :
        (k i : ℕ)
        → lookup k b.page_table ≡ some i
        → (frame_at st b i).pin_count ≢ 0
        → lookup k b'.page_table ≡ some i
