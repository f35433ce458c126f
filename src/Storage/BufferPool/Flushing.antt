-- ===== src/Storage/BufferPool/Flushing.antt =====
-- Writing a dirty frame back and keeping it: `flushPage` of src/storage/BufferPool.cpp.
use my_db.Base.{
  nat_Eq, ℕ, ◌≡◌, ◌≢◌, refl, sym, ap, ◌∙◌, true, false, some, arith, member, get_elem?-set_ne,
  get_elem?-set_self, lt-length_of_get_elem?, nat_eq, nat_eq_iff, Bool-cases, Option-cases, inl,
  inr,
}
use my_db.Base.Map.{lookup}
use my_db.Common.Exception.{ok, Result-cases}
use my_db.Storage.PageStore.{PageStore}
use my_db.Storage.BufferPool.{PageFrame, BufferPool, make_page_key, frame_at, put_frame, flush_page}
use my_db.Storage.BufferPool.View.{
  IsValid, make_page_key-injective, pages_apart, view, view-found, view-missing, Holds,
  Holds-frame_at, Entry, Idle, Unused, IsSound,
}
use my_db.Storage.BufferPool.Loading.{frame_at-put_self, frame_at-put_ne}
use my_db.Storage.BufferPool.Evicting.{Saved, written-Saved}

module _ (st : PageStore) where
  abbrev cleaned : PageFrame st.Page → PageFrame st.Page
  cleaned fr = record fr { is_dirty = false }

  abbrev flushed : ℕ → PageFrame st.Page → st.Disk → BufferPool st → BufferPool st
  flushed i fr d b = record (put_frame st i (cleaned fr) b) { disk = d }

  module _ {b : BufferPool st} (s : IsSound st b) {i g m : ℕ} {fr : PageFrame st.Page}
      (v : IsValid g m) (h : Holds st b g m i fr)
      (found : lookup (make_page_key g m) b.page_table ≡ some i) {d : st.Disk}
      (saved : Saved st b g m fr d) where
    frame_at-flushed : frame_at st (flushed i fr d b) i ≡ cleaned fr
    frame_at-flushed = frame_at-put_self st b i (cleaned fr) h.at

    Entry-here : (k : ℕ) → lookup k b.page_table ≡ some i → Entry st (flushed i fr d b) k i
    Entry-here k e =
        let en = s.entry k i e in
        let same : fr ≡ en.frame = ground (arith, h.at, en.holds.at) in
        let gs : g ≡ en.file = ground (arith, h.file, ap (λ x. x.file_id) same, en.holds.file) in
        let ms : m ≡ en.page = ground (arith, h.num, ap (λ x. x.page_num) same, en.holds.num) in
        record {
          file = g;
          page = m;
          frame = cleaned fr;
          valid = v;
          key = rw (gs, ms) en.key;
          holds = record {
            at =
                get_elem?-set_self b.frames i (cleaned fr) (lt-length_of_get_elem? b.frames i h.at);
            file = h.file;
            num = h.num;
            id = h.id;
            page = h.page;
            clean = λ c. saved.here;
          };
        }

    Entry-elsewhere :
        (k j : ℕ) → i ≢ j → lookup k b.page_table ≡ some j → Entry st (flushed i fr d b) k j
    Entry-elsewhere k j ne e =
        let en = s.entry k j e in
        let apart : make_page_key g m ≢ make_page_key en.file en.page =
          λ same. absurd (ne (ground (arith, found, e, same ∙ sym en.key))) in
        record {
          file = en.file;
          page = en.page;
          frame = en.frame;
          valid = en.valid;
          key = en.key;
          holds = record {
            at = get_elem?-set_ne b.frames (cleaned fr) ne ∙ en.holds.at;
            file = en.holds.file;
            num = en.holds.num;
            id = en.holds.id;
            page = en.holds.page;
            clean = λ c.
                saved.others en.file en.page (pages_apart g m en.file en.page apart)
                ∙ en.holds.clean c;
          };
        }

    Entry-flushed : (k j : ℕ) → lookup k b.page_table ≡ some j → Entry st (flushed i fr d b) k j
    Entry-flushed k j e = elim (Bool-cases (nat_eq i j)) [
      | inl same ↦
          let here : i ≡ j = (nat_eq_iff i j).0 same in rw (← here) (Entry-here k (rw here e))
      | inr other ↦ Entry-elsewhere k j (λ x. ground (arith, nat_eq_iff i j)) e
    ]

    -- Nothing but the flag of the frame changes.
    frame_at-same :
        {A : Type 0} (part : PageFrame st.Page → A) (j : ℕ)
        → part (cleaned fr) ≡ part fr
        → part (frame_at st (flushed i fr d b) j) ≡ part (frame_at st b j)
    frame_at-same part j eq = elim (Bool-cases (nat_eq i j)) [
      | inl same ↦
          let here : i ≡ j = (nat_eq_iff i j).0 same in
          rw (← here) (ap part frame_at-flushed ∙ eq ∙ ap part (sym (Holds-frame_at st h)))
      | inr other ↦
          ap part (frame_at-put_ne st b (cleaned fr) (λ x. ground (arith, nat_eq_iff i j)))
    ]

    Idle-flushed : (j : ℕ) → member j b.lru ≡ true → Idle st (flushed i fr d b) j
    Idle-flushed j idle =
        let old = s.idle j idle in
        record {
          key = old.key;
          found = old.found;
          unpinned = frame_at-same (λ x. x.pin_count) j refl ∙ old.unpinned;
        }

    Unused-flushed : (j : ℕ) → member j b.free_list ≡ true → Unused st (flushed i fr d b) j
    Unused-flushed j un =
        let old = s.unused j un in
        let ne : i ≢ j = λ same. ground (arith, h.at, h.file, rw (← same) at old.at, old.file) in
        record {
          frame = old.frame;
          at = get_elem?-set_ne b.frames (cleaned fr) ne ∙ old.at;
          file = old.file;
        }

    flushed-IsSound : IsSound st (flushed i fr d b)
    flushed-IsSound = record {
      disk = saved.sound;
      entry = Entry-flushed;
      idle = Idle-flushed;
      unused = Unused-flushed;
      lru_once = s.lru_once;
      free_once = s.free_once;
    }

    view-flushed : (f n : ℕ) → view st (flushed i fr d b) f n ≡ view st b f n
    view-flushed f n = elim (Option-cases (lookup (make_page_key f n) b.page_table)) [
      | inl miss ↦
          view-missing st (flushed i fr d b) f n miss
          ∙ saved.others f n
              (pages_apart g m f n (λ same. ground (arith, found, rw (← same) at miss)))
          ∙ sym (view-missing st b f n miss)
      | inr (j, e) ↦
          view-found st (flushed i fr d b) f n e
          ∙ ap ok (frame_at-same (λ x. x.content) j refl)
          ∙ sym (view-found st b f n e)
    ]

  -- The entry of a valid page is that page's.
  own-Holds :
      {b : BufferPool st} (s : IsSound st b) (f n i : ℕ)
      → IsValid f n
      → lookup (make_page_key f n) b.page_table ≡ some i
      → Holds st b f n i (frame_at st b i)
  own-Holds {b} s f n i v found =
      let en = s.entry (make_page_key f n) i found in
      let (fs, ns) = make_page_key-injective f n en.file en.page v en.valid en.key in
      rw (fs, ns, Holds-frame_at st en.holds) en.holds

  -- A flush of one page of a sound pool, where it returns: the pool stays sound, the disk has the
  -- page as it is seen, and every page is seen as before.
  pub flush_page-view :
      (b : BufferPool st) (f n g m : ℕ)
      → IsSound st b
      → IsValid f n
      → (flush_page st f n b).0 ≡ ok tt
      → IsSound st (flush_page st f n b).1
        × (st.read_page (flush_page st f n b).1.disk f n ≡ view st b f n)
        × (view st (flush_page st f n b).1 g m ≡ view st b g m)
  unfolding flush_page
  flush_page-view b f n g m s v done =
      elim (Option-cases (lookup (make_page_key f n) b.page_table)) [
        | inl miss ↦ rw (miss, flush_page) (s, sym (view-missing st b f n miss), refl)
        | inr (i, found) ↦
            let h = own-Holds s f n i v found in
            elim (Bool-cases (frame_at st b i).is_dirty) [
              | inr clean ↦
                  rw (found, clean, flush_page)
                    (s, h.clean clean ∙ sym (view-found st b f n found), refl)
              | inl dirty ↦
                  elim (Result-cases (st.write_page b.disk f n (frame_at st b i).content)) [
                    | inl (e, failed) ↦
                        absurd (ground (arith, rw (found, dirty, failed, flush_page) at done))
                    | inr (d, wrote) ↦
                        let saved = written-Saved st s v h wrote in
                        rw (found, dirty, wrote, flush_page)
                          (
                            flushed-IsSound s v h found saved,
                            saved.here ∙ sym (view-found st b f n found),
                            view-flushed s v h found saved g m,
                          )
                  ]
            ]
      ]
