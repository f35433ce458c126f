-- ===== src/Storage/BufferPool/Evicting.antt =====
-- Taking a frame from its page: `findVictimFrame` and the write-back of `fetchPage`
-- (src/storage/BufferPool.cpp).
use my_db.Base.{
  nat_Eq, ℕ, ◌≡◌, ◌≢◌, refl, sym, ap, ◌∙◌, true, false, ◌&&◌, none, some, List, arith, member,
  nat_eq, nat_eq_iff, Bool-cases, Option-cases, inl, inr, if◌then◌else◌,
}
use my_db.Base.Map.{lookup, erase, lookup-erase}
use my_db.Common.Exception.{ok}
use my_db.Storage.PageStore.{PageStore}
use my_db.Storage.BufferPool.{PageFrame, BufferPool, make_page_key, frame_at, unsnoc}
use my_db.Storage.BufferPool.Indices.{member-unsnoc, distinct-unsnoc}
use my_db.Storage.BufferPool.View.{
  IsValid, make_page_key-injective, view, view-found, view-missing, pages_apart, Holds,
  Holds-frame_at, Holds-unique, Entry, Idle, IsSound, Keeps,
}
use my_db.Storage.BufferPool.Loading.{IsReady}

module _ (st : PageStore) where
  -- The disk `d` is that of the pool with page `m` of file `g` up to date.
  pub record Saved (b : BufferPool st) (g m : ℕ) (fr : PageFrame st.Page) (d : st.Disk)
      : Type 0 where
    pub sound : st.IsSound d
    pub here : st.read_page d g m ≡ ok fr.content
    pub others :
        (g' m' : ℕ)
        → (nat_eq g g' && nat_eq m m') ≡ false
        → st.read_page d g' m' ≡ st.read_page b.disk g' m'

  module _ {b : BufferPool st} (s : IsSound st b) {i g m : ℕ} {fr : PageFrame st.Page}
      (v : IsValid g m) (h : Holds st b g m i fr) where
    pub clean-Saved : fr.is_dirty ≡ false → Saved b g m fr b.disk
    clean-Saved c = record { sound = s.disk; here = h.clean c; others = λ _ _ _. refl }

    pub written-Saved :
        {d : st.Disk} → st.write_page b.disk g m fr.content ≡ ok d → Saved b g m fr d
    written-Saved {d} e = record {
      sound = st.write_page-IsSound b.disk g m fr.content d s.disk e;
      here = st.read_page-write_page b.disk g m g m fr.content d s.disk h.page e ∙ ground arith;
      others = λ g' m' other.
          st.read_page-write_page b.disk g m g' m' fr.content d s.disk h.page e
          ∙ ground (arith, other);
    }

    module _ {front : List ℕ} {d : st.Disk} (last : unsnoc b.lru ≡ some (front, i))
        (found : lookup (make_page_key g m) b.page_table ≡ some i) (saved : Saved b g m fr d) where
      abbrev pub dropped : BufferPool st
      dropped = record b {
        lru = front;
        page_table = erase (make_page_key g m) b.page_table;
        disk = d;
      }

      found-dropped :
          (k : ℕ)
          → lookup k dropped.page_table
            ≡ (if nat_eq (make_page_key g m) k then none else lookup k b.page_table)
      found-dropped k = lookup-erase (make_page_key g m) k b.page_table

      -- An entry that is left is another page, in another frame.
      left-dropped :
          (k j : ℕ)
          → lookup k dropped.page_table ≡ some j
          → (make_page_key g m ≢ k) × (lookup k b.page_table ≡ some j)
      left-dropped k j e = ground (arith, found-dropped k, nat_eq_iff (make_page_key g m) k)

      apart-dropped : (k j : ℕ) → lookup k dropped.page_table ≡ some j → i ≢ j
      apart-dropped k j e same =
          let (ne, old) = left-dropped k j e in
          let en = s.entry k j old in ne (Holds-unique st h en.holds same ∙ sym en.key)

      Entry-dropped : (k j : ℕ) → lookup k dropped.page_table ≡ some j → Entry st dropped k j
      Entry-dropped k j e =
          let (ne, old) = left-dropped k j e in
          let en = s.entry k j old in
          record {
            file = en.file;
            page = en.page;
            frame = en.frame;
            valid = en.valid;
            key = en.key;
            holds = record {
              at = en.holds.at;
              file = en.holds.file;
              num = en.holds.num;
              id = en.holds.id;
              page = en.holds.page;
              clean = λ c.
                  saved.others en.file en.page
                    (pages_apart g m en.file en.page (λ same. ne (same ∙ sym en.key)))
                  ∙ en.holds.clean c;
            };
          }

      Idle-dropped : (j : ℕ) → member j front ≡ true → Idle st dropped j
      Idle-dropped j idle =
          let old = s.idle j (ground (arith, member-unsnoc b.lru j last)) in
          let out = (distinct-unsnoc b.lru s.lru_once last).1 in
          record {
            key = old.key;
            found = ground (
              arith,
              found-dropped old.key,
              nat_eq_iff (make_page_key g m) old.key,
              old.found,
              found,
              out,
              nat_eq_iff i j,
            );
            unpinned = old.unpinned;
          }

      pub dropped-IsReady : member i b.free_list ≡ false → IsReady st dropped i
      dropped-IsReady un = record {
        sound = record {
          disk = saved.sound;
          entry = Entry-dropped;
          idle = Idle-dropped;
          unused = λ j u.
              let old = s.unused j u in record { frame = old.frame; at = old.at; file = old.file };
          lru_once = (distinct-unsnoc b.lru s.lru_once last).0;
          free_once = s.free_once;
        };
        frame = fr;
        at = h.at;
        unowned = λ k e. apart-dropped k i e refl;
        not_idle = (distinct-unsnoc b.lru s.lru_once last).1;
        not_unused = un;
      }

      view-saved : view st dropped g m ≡ view st b g m
      view-saved =
          view-missing st dropped g m (ground (arith, found-dropped (make_page_key g m)))
          ∙ saved.here
          ∙ ap (λ x. ok x.content) (sym (Holds-frame_at st h))
          ∙ sym (view-found st b g m found)

      pinned-dropped :
          (frame_at st b i).pin_count ≡ 0
          → (k j : ℕ) → lookup k b.page_table ≡ some j
          → (frame_at st b j).pin_count ≢ 0
          → lookup k dropped.page_table ≡ some j
      pinned-dropped unpinned k j e pin = elim (Bool-cases (nat_eq (make_page_key g m) k)) [
        | inl same ↦
            let here : i ≡ j =
              ground (arith, found, e, rw (← (nat_eq_iff (make_page_key g m) k).0 same) at e) in
            absurd (pin (rw (← here) unpinned))
        | inr other ↦ ground (arith, found-dropped k)
      ]

      view-dropped : (f n : ℕ) → IsValid f n → view st dropped f n ≡ view st b f n
      view-dropped f n u = elim (Bool-cases (nat_eq (make_page_key g m) (make_page_key f n))) [
        | inl same ↦
            let key = (nat_eq_iff (make_page_key g m) (make_page_key f n)).0 same in
            let (gs, ms) = make_page_key-injective g m f n v u key in rw (← gs, ← ms) view-saved
        | inr other ↦ elim (Option-cases (lookup (make_page_key f n) b.page_table)) [
          | inl none_yet ↦
              view-missing st dropped f n (ground (arith, found-dropped (make_page_key f n)))
              ∙ saved.others f n (
                  pages_apart g m f n
                    (λ e. ground (arith, nat_eq_iff (make_page_key g m) (make_page_key f n))))
              ∙ sym (view-missing st b f n none_yet)
          | inr (j, here) ↦
              view-found st dropped f n (ground (arith, found-dropped (make_page_key f n)))
              ∙ sym (view-found st b f n here)
        ]
      ]

      pub dropped-Keeps : (frame_at st b i).pin_count ≡ 0 → Keeps st b dropped
      dropped-Keeps unpinned = record { views = view-dropped; pinned = pinned-dropped unpinned }
