-- ===== src/Storage/BufferPool/Fetching.antt =====
-- `fetchPage` of src/storage/BufferPool.cpp: a hit, and a miss with its eviction.
use my_db.Base.{
  nat_Eq, ℕ, ◌+◌, ◌≡◌, ◌≢◌, refl, sym, ap, ◌∙◌, Bool, ◌||◌, none, some, arith, member-erase_id,
  erase_id, Option-cases, Bool-cases, nat_eq, nat_eq_iff, if◌then◌else◌, false, inl, inr,
}
use my_db.Base.Map.{lookup, lookup-insert}
use my_db.Common.Exception.{Result-cases, ok}
use my_db.Storage.PageStore.{PageStore}
use my_db.Storage.BufferPool.{
  BufferPool, make_page_key, frame_at, find_victim_frame, evict, load, fetch_page,
}
use my_db.Storage.BufferPool.Indices.{distinct-erase_id}
use my_db.Storage.BufferPool.View.{IsValid, view, view-found, IsSound, Keeps}
use my_db.Storage.BufferPool.Loading.{
  with_page, with_page-IsSound, with_page-Keeps, loaded, frame_at-put_self, frame_at-put_ne,
}
use my_db.Storage.BufferPool.Vacating.{vacate}
use my_db.Storage.BufferPool.Relisting.{relisted, relisted-IsSound, relisted-Keeps}
use my_db.Storage.BufferPool.Touching.{
  marked, touched, touched-IsSound, view-touched, frame_at-touched, Allowed,
}

module _ (st : PageStore) where
  -- What a successful fetch does to the pool.
  pub record Fetched (b b' : BufferPool st) (f n i : ℕ) : Type 0 where
    pub sound : IsSound st b'
    pub keeps : Keeps st b b'
    pub found : lookup (make_page_key f n) b'.page_table ≡ some i
    pub pinned : (frame_at st b' i).pin_count ≢ 0
    pub counts :
        (k j : ℕ)
        → lookup k b.page_table ≡ some j
        → (frame_at st b j).pin_count ≢ 0
        → (frame_at st b' j).pin_count
          ≡ (if nat_eq i j then (frame_at st b j).pin_count + 1 else (frame_at st b j).pin_count)

  abbrev after_hit : BufferPool st → ℕ → Bool → BufferPool st
  after_hit b i w =
      touched st i ((frame_at st b i).pin_count + 1) ((frame_at st b i).is_dirty || w)
        (erase_id i b.lru) (b.cache_hits + 1) b

  fetch_page-hit :
      (b : BufferPool st) (f n i : ℕ) (w : Bool)
      → lookup (make_page_key f n) b.page_table ≡ some i
      → fetch_page st f n w b ≡ (ok i, after_hit b i w)
  unfolding fetch_page
  fetch_page-hit b f n i w found = rw (found, fetch_page) refl

  hit-Allowed :
      (b : BufferPool st) (f n i : ℕ) (w : Bool)
      → IsSound st b
      → lookup (make_page_key f n) b.page_table ≡ some i
      → Allowed st b i
          ((frame_at st b i).pin_count + 1)
          ((frame_at st b i).is_dirty || w)
          (erase_id i b.lru)
  hit-Allowed b f n i w s found = record {
    key = make_page_key f n;
    found = found;
    flag = λ c. ground (arith, c);
    once = distinct-erase_id i b.lru s.lru_once;
    others = λ j h ne. ground (arith, member-erase_id j i b.lru, h);
    self = λ h. absurd (ground (arith, member-erase_id i i b.lru, h));
  }

  hit-Fetched :
      (b : BufferPool st) (f n i : ℕ) (w : Bool)
      → IsSound st b
      → lookup (make_page_key f n) b.page_table ≡ some i
      → Fetched b (after_hit b i w) f n i
  hit-Fetched b f n i w s found =
      let a = hit-Allowed b f n i w s found in
      record {
        sound = touched-IsSound st s a (b.cache_hits + 1);
        keeps = record {
          views = λ g m v. view-touched st s a (b.cache_hits + 1) g m;
          pinned = λ k j here pin. here;
        };
        found = found;
        pinned = λ none_left.
            let pins = ap (λ fr. fr.pin_count) (frame_at-touched st s a (b.cache_hits + 1)) in
            omega (arith, pins, none_left);
        counts = λ k j here pin. elim (Bool-cases (nat_eq i j)) [
          | inl same ↦
              let at : i ≡ j = (nat_eq_iff i j).0 same in
              rw (same, ← at) (ap (λ fr. fr.pin_count) (frame_at-touched st s a (b.cache_hits + 1)))
          | inr other ↦
              let ne : i ≢ j = λ e. ground (arith, nat_eq_iff i j) in
              rw other (
                ap (λ fr. fr.pin_count)
                  (frame_at-put_ne st b
                    (marked st ((frame_at st b i).pin_count + 1) ((frame_at st b i).is_dirty || w)
                      (frame_at st b i))
                    ne))
        ];
      }

  abbrev missed : BufferPool st → BufferPool st
  missed b = relisted st b.free_list (b.cache_misses + 1) b

  fetch_page-miss :
      (b : BufferPool st) (f n i : ℕ) (w : Bool)
      → lookup (make_page_key f n) b.page_table ≡ none
      → (fetch_page st f n w b).0 ≡ ok i
      → (x : ℕ) × ((find_victim_frame st (missed b)).0 ≡ ok x)
        × ((evict st x (find_victim_frame st (missed b)).1).0 ≡ ok tt)
        × (fetch_page st f n w b
            ≡ load st f n w x (evict st x (find_victim_frame st (missed b)).1).1)
  unfolding fetch_page
  fetch_page-miss b f n i w miss done = elim (Result-cases (find_victim_frame st (missed b)).0) [
    | inl (e, failed) ↦ absurd (ground (arith, rw (miss, failed, fetch_page) at done))
    | inr (x, victim) ↦ elim (Result-cases (evict st x (find_victim_frame st (missed b)).1).0) [
      | inl (e, failed) ↦ absurd (ground (arith, rw (miss, victim, failed, fetch_page) at done))
      | inr (u, evicted) ↦ (x, victim, evicted, rw (miss, victim, evicted, fetch_page) refl)
    ]
  ]

  load-ok :
      (b : BufferPool st) (f n x i : ℕ) (w : Bool)
      → (load st f n w x b).0 ≡ ok i
      → (p : st.Page) × (st.read_page b.disk f n ≡ ok p)
        × (x ≡ i)
        × ((load st f n w x b).1 ≡ with_page st f n w x p b)
  unfolding load
  load-ok b f n x i w done = elim (Result-cases (st.read_page b.disk f n)) [
    | inl (e, failed) ↦ absurd (ground (arith, rw (failed, load) at done))
    | inr (p, read) ↦ (p, read, ground (arith, rw (read, load) at done), rw (read, load) refl)
  ]

  Keeps-trans :
      {a b c : BufferPool st} → b.frames ≡ a.frames → Keeps st a b → Keeps st b c → Keeps st a c
  Keeps-trans {a} {b} same h k = record {
    views = λ f n v. k.views f n v ∙ h.views f n v;
    pinned = λ key i found pin. k.pinned key i (h.pinned key i found pin) (rw (same, frame_at) pin);
  }

  miss-Fetched :
      (b : BufferPool st) (f n i : ℕ) (w : Bool)
      → IsSound st b
      → IsValid f n
      → lookup (make_page_key f n) b.page_table ≡ none
      → (fetch_page st f n w b).0 ≡ ok i
      → Fetched b (fetch_page st f n w b).1 f n i
  miss-Fetched b f n i w s v miss done =
      let (x, victim, evicted, is) = fetch_page-miss b f n i w miss done in
      let vac =
        vacate st (missed b) x
          (relisted-IsSound st b b.free_list (b.cache_misses + 1) s s.free_once (λ j h. h)) victim
          evicted in
      let b₂ = (evict st x (find_victim_frame st (missed b)).1).1 in
      let (p, read, same, final) = load-ok b₂ f n x i w (rw is at done) in
      let gone = vac.shrinks (make_page_key f n) miss in
      rw (is, final, ← same)
        (record {
          sound = with_page-IsSound st vac.ready f n w p v gone read;
          keeps =
              Keeps-trans refl (relisted-Keeps st b b.free_list (b.cache_misses + 1)) (
                Keeps-trans vac.frames vac.keeps
                  (with_page-Keeps st vac.ready f n w p v gone read));
          found =
              ground (arith, lookup-insert (make_page_key f n) (make_page_key f n) x b₂.page_table);
          pinned = λ none_left.
              let pins =
                ap (λ fr. fr.pin_count)
                  (frame_at-put_self st b₂ x (loaded st f n w p) vac.ready.at) in
              omega (arith, pins, none_left);
          counts = λ k j here pin.
              let still = vac.keeps.pinned k j here pin in
              let ne : x ≢ j = λ e. vac.ready.unowned k (still ∙ ap some (sym e)) in
              let other : nat_eq x j ≡ false = ground (arith, nat_eq_iff x j, ne) in
              let pins : (frame_at st b₂ j).pin_count ≡ (frame_at st b j).pin_count =
                rw (vac.frames, frame_at) refl in
              rw other
                (ap (λ fr. fr.pin_count) (frame_at-put_ne st b₂ (loaded st f n w p) ne) ∙ pins);
        })

  pub fetch_page-Fetched :
      (b : BufferPool st) (f n i : ℕ) (w : Bool)
      → IsSound st b
      → IsValid f n
      → (fetch_page st f n w b).0 ≡ ok i
      → Fetched b (fetch_page st f n w b).1 f n i
  fetch_page-Fetched b f n i w s v done =
      elim (Option-cases (lookup (make_page_key f n) b.page_table)) [
        | inl miss ↦ miss-Fetched b f n i w s v miss done
        | inr (j, found) ↦
            let is = fetch_page-hit b f n j w found in
            let same : j ≡ i = ground (arith, rw is at done) in
            rw (is, ← same) (hit-Fetched b f n j w s found)
      ]

  -- Fetching page `n` of file `f` from a sound pool, where it returns a frame: the pool stays
  -- sound, the frame is pinned and holds the page as it was seen before, and every page of a valid
  -- number is seen as before.
  pub fetch_page-view :
      (b : BufferPool st) (f n i : ℕ) (w : Bool) (g m : ℕ)
      → IsSound st b
      → IsValid f n
      → IsValid g m
      → (fetch_page st f n w b).0 ≡ ok i
      → IsSound st (fetch_page st f n w b).1
        × (ok (frame_at st (fetch_page st f n w b).1 i).content ≡ view st b f n)
        × ((frame_at st (fetch_page st f n w b).1 i).pin_count ≢ 0)
        × (view st (fetch_page st f n w b).1 g m ≡ view st b g m)
  fetch_page-view b f n i w g m s v u done =
      let h = fetch_page-Fetched b f n i w s v done in
      (
        h.sound,
        sym (view-found st (fetch_page st f n w b).1 f n h.found) ∙ h.keeps.views f n v,
        h.pinned,
        h.keeps.views g m u,
      )

  -- A successful fetch from a sound pool leaves a page that was pinned in its frame, with its
  -- content and one pin more if it is the page that was fetched, and else with as many pins as it had.
  pub fetch_page-pinned :
      (b : BufferPool st) (f n i : ℕ) (w : Bool) (g m j : ℕ)
      → IsSound st b
      → IsValid f n
      → IsValid g m
      → (fetch_page st f n w b).0 ≡ ok i
      → lookup (make_page_key g m) b.page_table ≡ some j
      → (frame_at st b j).pin_count ≢ 0
      → (lookup (make_page_key g m) (fetch_page st f n w b).1.page_table ≡ some j)
        × (ok (frame_at st (fetch_page st f n w b).1 j).content ≡ ok (frame_at st b j).content)
        × ((frame_at st (fetch_page st f n w b).1 j).pin_count
            ≡ (if nat_eq i j then (frame_at st b j).pin_count + 1 else (frame_at st b j).pin_count))
  fetch_page-pinned b f n i w g m j s v u done found pin =
      let h = fetch_page-Fetched b f n i w s v done in
      let still = h.keeps.pinned (make_page_key g m) j found pin in
      (
        still,
        sym (view-found st (fetch_page st f n w b).1 g m still)
            ∙ h.keeps.views g m u
            ∙ view-found st b g m found,
        h.counts (make_page_key g m) j found pin,
      )
