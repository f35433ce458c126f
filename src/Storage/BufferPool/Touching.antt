-- ===== src/Storage/BufferPool/Touching.antt =====
-- Changing a frame's pin count and dirty flag, and the list of unpinned frames, as `fetchPage` does
-- on a hit and `unpinPage` (src/storage/BufferPool.cpp).
use my_db.Base.{
  nat_Eq, ℕ, ◌≡◌, ◌≢◌, sym, ap, ◌∙◌, Bool, true, false, some, List, arith, member, get_elem?,
  get_elem?-set_ne, get_elem?-set_self, lt-length_of_get_elem?, nat_eq, nat_eq_iff, Bool-cases,
  Option-cases, inl, inr,
}
use my_db.Base.Map.{lookup}
use my_db.Common.Exception.{ok}
use my_db.Storage.PageStore.{PageStore}
use my_db.Storage.BufferPool.{PageFrame, BufferPool, make_page_key, frame_at, put_frame}
use my_db.Storage.BufferPool.Indices.{distinct}
use my_db.Storage.BufferPool.View.{
  view, view-found, view-missing, Holds-frame_at, Entry, Idle, Unused, IsSound,
}
use my_db.Storage.BufferPool.Loading.{frame_at-put_self, frame_at-put_ne}

module _ (st : PageStore) where
  abbrev pub marked : ℕ → Bool → PageFrame st.Page → PageFrame st.Page
  marked pins dirty fr = record fr { pin_count = pins; is_dirty = dirty }

  abbrev pub touched : ℕ → ℕ → Bool → List ℕ → ℕ → BufferPool st → BufferPool st
  touched i pins dirty lru hits b =
      record (put_frame st i (marked pins dirty (frame_at st b i)) b) {
        lru = lru;
        cache_hits = hits;
      }

  -- Frame `i` has an entry, a dirty frame stays dirty, and the new list has the frames of the old
  -- one, where frame `i` must be free of pins.
  pub record Allowed (b : BufferPool st) (i pins : ℕ) (dirty : Bool) (lru : List ℕ) : Type 0 where
    pub key : ℕ
    pub found : lookup key b.page_table ≡ some i
    pub flag : dirty ≡ false → (frame_at st b i).is_dirty ≡ false
    pub once : distinct lru ≡ true
    pub others : (j : ℕ) → member j lru ≡ true → i ≢ j → member j b.lru ≡ true
    pub self : member i lru ≡ true → pins ≡ 0

  module _ {b : BufferPool st} (s : IsSound st b) {i pins : ℕ} {dirty : Bool} {lru : List ℕ}
      (a : Allowed b i pins dirty lru) (hits : ℕ) where
    abbrev b' : BufferPool st
    b' = touched i pins dirty lru hits b

    own : Entry st b a.key i
    own = s.entry a.key i a.found

    pub frame_at-touched : frame_at st b' i ≡ marked pins dirty (frame_at st b i)
    frame_at-touched = frame_at-put_self st b i (marked pins dirty (frame_at st b i)) own.holds.at

    at-touched : get_elem? b'.frames i ≡ some (marked pins dirty own.frame)
    at-touched =
        get_elem?-set_self b.frames i (marked pins dirty (frame_at st b i))
          (lt-length_of_get_elem? b.frames i own.holds.at)
        ∙ ap (λ fr. some (marked pins dirty fr)) (Holds-frame_at st own.holds)

    Entry-self : (k : ℕ) → lookup k b.page_table ≡ some i → Entry st b' k i
    Entry-self k found =
        let e = s.entry k i found in
        let same : own.frame ≡ e.frame = ground (arith, own.holds.at, e.holds.at) in
        record {
          file = e.file;
          page = e.page;
          frame = marked pins dirty own.frame;
          valid = e.valid;
          key = e.key;
          holds = record {
            at = at-touched;
            file = ap (λ fr. fr.file_id) same ∙ e.holds.file;
            num = ap (λ fr. fr.page_num) same ∙ e.holds.num;
            id = ap (λ fr. fr.page_id) same ∙ e.holds.id;
            page = rw same e.holds.page;
            clean = λ c.
                e.holds.clean (ap (λ fr. fr.is_dirty) (sym (Holds-frame_at st e.holds)) ∙ a.flag c)
                ∙ ap (λ fr. ok fr.content) (sym same);
          };
        }

    Entry-other : (k j : ℕ) → i ≢ j → lookup k b.page_table ≡ some j → Entry st b' k j
    Entry-other k j ne found =
        let e = s.entry k j found in
        record {
          file = e.file;
          page = e.page;
          frame = e.frame;
          valid = e.valid;
          key = e.key;
          holds = record {
            at = get_elem?-set_ne b.frames (marked pins dirty (frame_at st b i)) ne ∙ e.holds.at;
            file = e.holds.file;
            num = e.holds.num;
            id = e.holds.id;
            page = e.holds.page;
            clean = e.holds.clean;
          };
        }

    Entry-touched : (k j : ℕ) → lookup k b.page_table ≡ some j → Entry st b' k j
    Entry-touched k j found = elim (Bool-cases (nat_eq i j)) [
      | inl same ↦
          let here : i ≡ j = (nat_eq_iff i j).0 same in rw (← here) (Entry-self k (rw here found))
      | inr other ↦ Entry-other k j (λ e. ground (arith, nat_eq_iff i j)) found
    ]

    Idle-touched : (j : ℕ) → member j lru ≡ true → Idle st b' j
    Idle-touched j idle = elim (Bool-cases (nat_eq i j)) [
      | inl same ↦
          let here : i ≡ j = (nat_eq_iff i j).0 same in
          rw (← here) (record {
            key = a.key;
            found = a.found;
            unpinned = ap (λ fr. fr.pin_count) frame_at-touched ∙ a.self (rw here idle);
          })
      | inr other ↦
          let ne : i ≢ j = λ e. ground (arith, nat_eq_iff i j) in
          let old = s.idle j (a.others j idle ne) in
          record {
            key = old.key;
            found = old.found;
            unpinned =
                ap (λ fr. fr.pin_count)
                  (frame_at-put_ne st b (marked pins dirty (frame_at st b i)) ne)
                ∙ old.unpinned;
          }
    ]

    Unused-touched : (j : ℕ) → member j b.free_list ≡ true → Unused st b' j
    Unused-touched j u =
        let old = s.unused j u in
        let ne : i ≢ j =
          λ same. ground (arith, own.holds.at, own.holds.file, rw (← same) at old.at, old.file) in
        record {
          frame = old.frame;
          at = get_elem?-set_ne b.frames (marked pins dirty (frame_at st b i)) ne ∙ old.at;
          file = old.file;
        }

    pub touched-IsSound : IsSound st b'
    touched-IsSound = record {
      disk = s.disk;
      entry = Entry-touched;
      idle = Idle-touched;
      unused = Unused-touched;
      lru_once = a.once;
      free_once = s.free_once;
    }

    content-touched : (j : ℕ) → (frame_at st b' j).content ≡ (frame_at st b j).content
    content-touched j = elim (Bool-cases (nat_eq i j)) [
      | inl same ↦
          let here : i ≡ j = (nat_eq_iff i j).0 same in
          rw (← here) (ap (λ fr. fr.content) frame_at-touched)
      | inr other ↦
          ap (λ fr. fr.content)
            (frame_at-put_ne st b (marked pins dirty (frame_at st b i))
              (λ e. ground (arith, nat_eq_iff i j)))
    ]

    pub view-touched : (f n : ℕ) → view st b' f n ≡ view st b f n
    view-touched f n = elim (Option-cases (lookup (make_page_key f n) b.page_table)) [
      | inl miss ↦ view-missing st b' f n miss ∙ sym (view-missing st b f n miss)
      | inr (j, found) ↦
          view-found st b' f n found ∙ ap ok (content-touched j) ∙ sym (view-found st b f n found)
    ]
