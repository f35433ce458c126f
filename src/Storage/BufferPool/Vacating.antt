-- ===== src/Storage/BufferPool/Vacating.antt =====
-- The frame that a miss of `fetchPage` takes, with its page written back (src/storage/BufferPool.cpp).
use my_db.Base.{
  nat_Eq, ℕ, ◌≡◌, ◌≢◌, ◌⊎◌, refl, ap, ◌∙◌, true, false, none, some, List, [], ◌∷◌, arith, member,
  nat_eq, Bool-cases, Option-cases, inl, inr,
}
use my_db.Base.Map.{lookup, erase, lookup-erase}
use my_db.Common.Exception.{Exception, Result-cases, ok, throw}
use my_db.Storage.PageStore.{PageStore}
use my_db.Storage.BufferPool.{
  PageFrame, BufferPool, make_page_key, invalid_page_id, frame_at, find_victim_frame, evict,
  evict_page, unsnoc,
}
use my_db.Storage.BufferPool.Indices.{distinct, member-unsnoc}
use my_db.Storage.BufferPool.View.{IsValid, Holds, Holds-frame_at, IsSound, Keeps}
use my_db.Storage.BufferPool.Loading.{IsReady}
use my_db.Storage.BufferPool.Evicting.{
  Saved, clean-Saved, written-Saved, dropped, dropped-IsReady, dropped-Keeps,
}
use my_db.Storage.BufferPool.Relisting.{relisted, relisted-IsSound, relisted-Keeps}

module _ (st : PageStore) where
  -- The frame that a miss takes, free of its page.
  pub record Vacated (b b' : BufferPool st) (i : ℕ) : Type 0 where
    pub ready : IsReady st b' i
    pub keeps : Keeps st b b'
    pub frames : b'.frames ≡ b.frames
    pub shrinks : (k : ℕ) → lookup k b.page_table ≡ none → lookup k b'.page_table ≡ none

  vacate-unused :
      (b : BufferPool st) (i : ℕ) (rest : List ℕ)
      → IsSound st b
      → b.free_list ≡ i ∷ rest
      → Vacated b (relisted st rest b.cache_misses b) i
  unfolding distinct member
  vacate-unused b i rest s e =
      let u = s.unused i (rw e (ground arith)) in
      let once = rw e at s.free_once in
      record {
        ready = record {
          sound =
              relisted-IsSound st b rest b.cache_misses s (ground (arith, once))
                (λ j h. rw e (ground (arith, h)));
          frame = u.frame;
          at = u.at;
          unowned = λ k found.
              let en = s.entry k i found in
              ground (arith, en.holds.at, en.holds.file, u.at, u.file);
          not_idle = elim (Bool-cases (member i b.lru)) [
            | inl idle ↦
                let o = s.idle i idle in
                let en = s.entry o.key i o.found in
                absurd (ground (arith, en.holds.at, en.holds.file, u.at, u.file))
            | inr out ↦ out
          ];
          not_unused = ground (arith, once);
        };
        keeps = relisted-Keeps st b rest b.cache_misses;
        frames = refl;
        shrinks = λ k miss. miss;
      }

  abbrev without_page : ℕ → ℕ → BufferPool st → BufferPool st
  without_page g m b = record b { page_table = erase (make_page_key g m) b.page_table }

  module _ {b : BufferPool st} {g m i : ℕ} {fr : PageFrame st.Page} (v : IsValid g m)
      (h : Holds st b g m i fr) where
    evict-held : evict st i b ≡ evict_page st g fr b
    unfolding evict
    evict-held =
        rw (ap (λ x. x.file_id) (Holds-frame_at st h) ∙ h.file, Holds-frame_at st h, evict) refl

    named : nat_eq fr.page_id invalid_page_id ≡ false
    named = ground (arith, v.page, h.id)

    evict-clean : fr.is_dirty ≡ false → evict st i b ≡ (ok tt, without_page g m b)
    unfolding evict_page
    evict-clean c = evict-held ∙ rw (named, c, h.num, evict_page) refl

    evict-written :
        fr.is_dirty ≡ true
        → {d : st.Disk} → st.write_page b.disk g m fr.content ≡ ok d
        → evict st i b ≡ (ok tt, record (without_page g m b) { disk = d })
    unfolding evict_page
    evict-written c w = evict-held ∙ rw (named, c, rw (← h.num) at w, h.num, evict_page) refl

    evict-failed :
        fr.is_dirty ≡ true
        → {e : Exception} → st.write_page b.disk g m fr.content ≡ throw e
        → evict st i b ≡ (throw e, without_page g m b)
    unfolding evict_page
    evict-failed c w = evict-held ∙ rw (named, c, rw (← h.num) at w, h.num, evict_page) refl

  vacate-held :
      (b : BufferPool st) (g m i : ℕ) (front : List ℕ) (fr : PageFrame st.Page)
      → IsSound st b
      → b.free_list ≡ []
      → unsnoc b.lru ≡ some (front, i)
      → IsValid g m
      → (h : Holds st b g m i fr) → lookup (make_page_key g m) b.page_table ≡ some i
      → (frame_at st b i).pin_count ≡ 0
      → (evict st i (record b { lru = front })).0 ≡ ok tt
      → Vacated b (evict st i (record b { lru = front })).1 i
  unfolding member
  vacate-held b g m i front fr s e last v h found unpinned done =
      let out : member i b.free_list ≡ false = rw e refl in
      let at_front : Holds st (record b { lru = front }) g m i fr = record {
        at = h.at;
        file = h.file;
        num = h.num;
        id = h.id;
        page = h.page;
        clean = h.clean;
      } in
      let give : (d : st.Disk) (saved : Saved st b g m fr d)
          → Vacated b (dropped st s v h last found saved) i =
        λ d saved. record {
          ready = dropped-IsReady st s v h last found saved out;
          keeps = dropped-Keeps st s v h last found saved unpinned;
          frames = refl;
          shrinks = λ k miss. ground (arith, lookup-erase (make_page_key g m) k b.page_table, miss);
        } in
      elim (Bool-cases fr.is_dirty) [
        | inr clean ↦ rw (evict-clean v at_front clean) (give b.disk (clean-Saved st s v h clean))
        | inl dirty ↦ elim (Result-cases (st.write_page b.disk g m fr.content)) [
          | inl (x, failed) ↦
              absurd (ground (arith, rw (evict-failed v at_front dirty failed) at done))
          | inr (d, wrote) ↦
              rw (evict-written v at_front dirty wrote) (give d (written-Saved st s v h wrote))
        ]
      ]

  vacate-idle :
      (b : BufferPool st) (i : ℕ) (front : List ℕ)
      → IsSound st b
      → b.free_list ≡ []
      → unsnoc b.lru ≡ some (front, i)
      → (evict st i (record b { lru = front })).0 ≡ ok tt
      → Vacated b (evict st i (record b { lru = front })).1 i
  vacate-idle b i front s e last done =
      let o = s.idle i (ground (arith, member-unsnoc b.lru i last)) in
      let en = s.entry o.key i o.found in
      vacate-held b en.file en.page i front en.frame s e last en.valid en.holds
        (rw (← en.key) o.found) o.unpinned done

  List-cases : (xs : List ℕ) → (xs ≡ []) ⊎ ((x : ℕ) × (rest : List ℕ) × (xs ≡ x ∷ rest))
  List-cases [] = inl refl
  List-cases (x ∷ rest) = inr (x, rest, refl)

  evict-unused :
      (b : BufferPool st) (i : ℕ) → (frame_at st b i).file_id ≡ none → evict st i b ≡ (ok tt, b)
  unfolding evict
  evict-unused b i h = rw (h, evict) refl

  victim-unused :
      (b : BufferPool st) (i : ℕ) (rest : List ℕ)
      → b.free_list ≡ i ∷ rest
      → find_victim_frame st b ≡ (ok i, relisted st rest b.cache_misses b)
  unfolding find_victim_frame
  victim-unused b i rest e = rw (e, find_victim_frame) refl

  victim-idle :
      (b : BufferPool st) (i : ℕ) (front : List ℕ)
      → b.free_list ≡ []
      → unsnoc b.lru ≡ some (front, i)
      → find_victim_frame st b ≡ (ok i, record b { lru = front })
  unfolding find_victim_frame
  victim-idle b i front e last = ground (arith, e, last)

  victim-none :
      (b : BufferPool st)
      → b.free_list ≡ []
      → unsnoc b.lru ≡ none
      → (i : ℕ) → (find_victim_frame st b).0 ≢ ok i
  unfolding find_victim_frame
  victim-none b e last i = rw (e, last, find_victim_frame) (λ h. ground (arith, h))

  pub vacate :
      (b : BufferPool st) (i : ℕ)
      → IsSound st b
      → (find_victim_frame st b).0 ≡ ok i
      → (evict st i (find_victim_frame st b).1).0 ≡ ok tt
      → Vacated b (evict st i (find_victim_frame st b).1).1 i
  vacate b i s victim done = elim (List-cases b.free_list) [
    | inr (x, rest, e) ↦
        let step = victim-unused b x rest e in
        let same : x ≡ i = ground (arith, rw step at victim) in
        let u = s.unused x (rw e (unfold member in ground arith)) in
        rw
          (
            ← same,
            step,
            evict-unused (relisted st rest b.cache_misses b) x (rw (u.at, frame_at) u.file),
          )
          (vacate-unused b x rest s e)
    | inl e ↦ elim (Option-cases (unsnoc b.lru)) [
      | inl nothing ↦ absurd (victim-none b e nothing i victim)
      | inr ((front, x), last) ↦
          let step = victim-idle b x front e last in
          let same : x ≡ i = ground (arith, rw step at victim) in
          rw (← same, step) (vacate-idle b x front s e last (rw (step, ← same) at done))
    ]
  ]
