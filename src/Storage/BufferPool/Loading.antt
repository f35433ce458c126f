-- ===== src/Storage/BufferPool/Loading.antt =====
-- Reading a page into a frame that nothing refers to: the end of `fetchPage`
-- (src/storage/BufferPool.cpp).
use my_db.Base.{
  nat_Eq, ℕ, ◌≡◌, ◌≢◌, refl, sym, ap, ◌∙◌, Bool, true, false, none, some, arith, member, get_elem?,
  get_elem?-set_self, get_elem?-set_ne, lt-length_of_get_elem?, nat_eq, nat_eq_iff, Bool-cases,
  Option-cases, inl, inr, if◌then◌else◌,
}
use my_db.Base.Map.{lookup, insert, lookup-insert}
use my_db.Common.Exception.{ok}
use my_db.Storage.PageStore.{PageStore}
use my_db.Storage.BufferPool.{PageFrame, BufferPool, make_page_key, frame_at, put_frame}
use my_db.Storage.BufferPool.View.{
  IsValid, make_page_key-injective, view, view-found, view-missing, Entry, Idle, Unused, IsSound,
  Keeps,
}

module _ (st : PageStore) where
  pub frame_at-put_self :
      (b : BufferPool st) (i : ℕ) (new : PageFrame st.Page) {old : PageFrame st.Page}
      → get_elem? b.frames i ≡ some old
      → frame_at st (put_frame st i new b) i ≡ new
  frame_at-put_self b i new h =
      rw (get_elem?-set_self b.frames i new (lt-length_of_get_elem? b.frames i h), frame_at) refl

  pub frame_at-put_ne :
      (b : BufferPool st) {i j : ℕ} (new : PageFrame st.Page)
      → i ≢ j
      → frame_at st (put_frame st i new b) j ≡ frame_at st b j
  frame_at-put_ne b new ne = rw (get_elem?-set_ne b.frames new ne, frame_at) refl

  -- Frame `i` is there and nothing refers to it.
  pub record IsReady (b : BufferPool st) (i : ℕ) : Type 0 where
    pub sound : IsSound st b
    pub frame : PageFrame st.Page
    pub at : get_elem? b.frames i ≡ some frame
    pub unowned : (k : ℕ) → lookup k b.page_table ≢ some i
    pub not_idle : member i b.lru ≡ false
    pub not_unused : member i b.free_list ≡ false

  abbrev pub loaded : ℕ → ℕ → Bool → st.Page → PageFrame st.Page
  loaded f n w p = record {
    content = p;
    page_id = n;
    file_id = some f;
    page_num = n;
    is_dirty = w;
    pin_count = 1;
  }

  abbrev pub with_page : ℕ → ℕ → Bool → ℕ → st.Page → BufferPool st → BufferPool st
  with_page f n w i p b = record (put_frame st i (loaded f n w p) b) {
    page_table = insert (make_page_key f n) i b.page_table;
  }

  module _ {b : BufferPool st} {i : ℕ} (ready : IsReady b i) (f n : ℕ) (w : Bool) (p : st.Page)
      (v : IsValid f n) (miss : lookup (make_page_key f n) b.page_table ≡ none)
      (read : st.read_page b.disk f n ≡ ok p) where
    abbrev b' : BufferPool st
    b' = with_page f n w i p b

    found-with_page :
        (k : ℕ)
        → lookup k b'.page_table
          ≡ (if nat_eq (make_page_key f n) k then some i else lookup k b.page_table)
    found-with_page k = lookup-insert (make_page_key f n) k i b.page_table

    at-with_page : get_elem? b'.frames i ≡ some (loaded f n w p)
    at-with_page =
        get_elem?-set_self b.frames i (loaded f n w p) (lt-length_of_get_elem? b.frames i ready.at)

    old-with_page : (k j : ℕ) → lookup k b.page_table ≡ some j → (i ≢ j) × (make_page_key f n ≢ k)
    old-with_page k j found = (
      λ same. ready.unowned k (rw same found),
      λ same. absurd (ground (arith, rw (← same) at found)),
    )

    Entry-new : (k j : ℕ) → make_page_key f n ≡ k → i ≡ j → Entry st b' k j
    Entry-new k j same here = rw (← here) (record {
      file = f;
      page = n;
      frame = loaded f n w p;
      valid = v;
      key = sym same;
      holds = record {
        at = at-with_page;
        file = refl;
        num = refl;
        id = refl;
        page = st.read_page-IsPage b.disk f n p read;
        clean = λ _. read;
      };
    })

    Entry-old : (k j : ℕ) → lookup k b.page_table ≡ some j → Entry st b' k j
    Entry-old k j found =
        let e = ready.sound.entry k j found in
        record {
          file = e.file;
          page = e.page;
          frame = e.frame;
          valid = e.valid;
          key = e.key;
          holds = record {
            at =
                get_elem?-set_ne b.frames (loaded f n w p) (old-with_page k j found).0 ∙ e.holds.at;
            file = e.holds.file;
            num = e.holds.num;
            id = e.holds.id;
            page = e.holds.page;
            clean = e.holds.clean;
          };
        }

    Entry-with_page : (k j : ℕ) → lookup k b'.page_table ≡ some j → Entry st b' k j
    Entry-with_page k j found = elim (Bool-cases (nat_eq (make_page_key f n) k)) [
      | inl new ↦
          Entry-new k j ((nat_eq_iff (make_page_key f n) k).0 new)
            (ground (arith, found-with_page k))
      | inr other ↦ Entry-old k j (ground (arith, found-with_page k))
    ]

    Idle-with_page : (j : ℕ) → member j b.lru ≡ true → Idle st b' j
    Idle-with_page j idle =
        let old = ready.sound.idle j idle in
        let (apart, other) = old-with_page old.key j old.found in
        record {
          key = old.key;
          found =
              ground
                (arith, found-with_page old.key, nat_eq_iff (make_page_key f n) old.key, old.found);
          unpinned =
              ap (λ fr. fr.pin_count) (frame_at-put_ne b (loaded f n w p) apart) ∙ old.unpinned;
        }

    Unused-with_page : (j : ℕ) → member j b.free_list ≡ true → Unused st b' j
    Unused-with_page j un =
        let old = ready.sound.unused j un in
        let apart : i ≢ j = λ same. absurd (ground (arith, ready.not_unused, rw (← same) at un)) in
        record {
          frame = old.frame;
          at = get_elem?-set_ne b.frames (loaded f n w p) apart ∙ old.at;
          file = old.file;
        }

    pub with_page-IsSound : IsSound st b'
    with_page-IsSound = record {
      disk = ready.sound.disk;
      entry = Entry-with_page;
      idle = Idle-with_page;
      unused = Unused-with_page;
      lru_once = ready.sound.lru_once;
      free_once = ready.sound.free_once;
    }

    found-loaded : lookup (make_page_key f n) b'.page_table ≡ some i
    found-loaded = ground (arith, found-with_page (make_page_key f n))

    view-loaded : view st b' f n ≡ view st b f n
    view-loaded =
        view-found st b' f n found-loaded
        ∙ ap (λ fr. ok fr.content) (frame_at-put_self b i (loaded f n w p) ready.at)
        ∙ sym read
        ∙ sym (view-missing st b f n miss)

    view-with_page : (g m : ℕ) → IsValid g m → view st b' g m ≡ view st b g m
    view-with_page g m u = elim (Bool-cases (nat_eq (make_page_key f n) (make_page_key g m))) [
      | inl same ↦
          let key = (nat_eq_iff (make_page_key f n) (make_page_key g m)).0 same in
          let (fs, ns) = make_page_key-injective f n g m v u key in rw (← fs, ← ns) view-loaded
      | inr other ↦ elim (Option-cases (lookup (make_page_key g m) b.page_table)) [
        | inl none_yet ↦
            view-missing st b' g m (ground (arith, found-with_page (make_page_key g m)))
            ∙ sym (view-missing st b g m none_yet)
        | inr (j, found) ↦
            view-found st b' g m (ground (arith, found-with_page (make_page_key g m)))
            ∙ ap (λ fr. ok fr.content)
                (frame_at-put_ne b (loaded f n w p) (old-with_page (make_page_key g m) j found).0)
            ∙ sym (view-found st b g m found)
      ]
    ]

    pub with_page-Keeps : Keeps st b b'
    with_page-Keeps = record {
      views = view-with_page;
      pinned = λ k j found _.
          ground
            (arith, found-with_page k, nat_eq_iff (make_page_key f n) k, old-with_page k j found);
    }
