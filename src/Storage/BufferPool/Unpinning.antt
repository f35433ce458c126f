-- ===== src/Storage/BufferPool/Unpinning.antt =====
-- A new pool, and giving a page back: the constructor and `unpinPage` of
-- src/storage/BufferPool.cpp.
use my_db.Base.{
  nat_Eq, ℕ, zero, suc, ◌+◌, ◌-◌, ◌<◌, ◌≤◌, ◌≡◌, refl, Bool, true, false, ◌||◌, some, ◌∷◌, arith,
  member, get_elem?, nat_eq, nat_eq_iff, Bool-cases, Option-cases, inl, inr,
}
use my_db.Base.Map.{lookup}
use my_db.Storage.PageStore.{PageStore}
use my_db.Storage.BufferPool.{
  BufferPool, make_page_key, frame_at, empty_frame, repeat_frame, indices, new_pool, unpin_page,
}
use my_db.Storage.BufferPool.Indices.{distinct}
use my_db.Storage.BufferPool.View.{view, IsSound}
use my_db.Storage.BufferPool.Touching.{touched-IsSound, view-touched, Allowed}

member-indices : (a n j : ℕ) → member j (indices a n) ≡ true → (a ≤ j) × (j < a + n)
unfolding member indices
member-indices a zero j h = absurd (ground arith)
member-indices a (suc n) j h = elim (Bool-cases (nat_eq a j)) [
  | inl same ↦ (omega (arith, (nat_eq_iff a j).0 same), omega (arith, (nat_eq_iff a j).0 same))
  | inr other ↦
      let (lo, hi) = member-indices (suc a) n j (ground arith) in
      (omega (arith, lo), omega (arith, hi))
]

distinct-indices : (a n : ℕ) → distinct (indices a n) ≡ true
unfolding distinct indices
distinct-indices a zero = refl
distinct-indices a (suc n) = elim (Bool-cases (member a (indices (suc a) n))) [
  | inl there ↦ absurd (omega (arith, (member-indices (suc a) n a there).0))
  | inr out ↦ ground (arith, distinct-indices (suc a) n)
]

module _ (st : PageStore) where
  get-repeat_frame : (n j : ℕ) → j < n → get_elem? (repeat_frame st n) j ≡ some (empty_frame st)
  unfolding repeat_frame
  get-repeat_frame zero j h = absurd (omega arith)
  get-repeat_frame (suc n) zero h = refl
  get-repeat_frame (suc n) (suc j) h = get-repeat_frame n j (omega arith)

  pub new_pool-IsSound : (d : st.Disk) (size : ℕ) → st.IsSound d → IsSound st (new_pool st d size)
  unfolding new_pool lookup member distinct
  new_pool-IsSound d size s = record {
    disk = s;
    entry = λ k i h. absurd (ground (arith, h));
    idle = λ i h. absurd (ground (arith, h));
    unused = λ i h. record {
      frame = empty_frame st;
      at = get-repeat_frame size i (omega (arith, (member-indices 0 size i h).1));
      file = refl;
    };
    lru_once = refl;
    free_once = distinct-indices 0 size;
  }

  -- A pinned frame is not among those that may be evicted.
  pinned-not_idle :
      (b : BufferPool st) (i : ℕ)
      → IsSound st b
      → nat_eq (frame_at st b i).pin_count 0 ≡ false
      → member i b.lru ≡ false
  pinned-not_idle b i s pinned = elim (Bool-cases (member i b.lru)) [
    | inl idle ↦ absurd (ground (arith, (s.idle i idle).unpinned, pinned))
    | inr out ↦ out
  ]

  module _ (b : BufferPool st) (f n i : ℕ) (dirty : Bool) (s : IsSound st b)
      (found : lookup (make_page_key f n) b.page_table ≡ some i)
      (pinned : nat_eq (frame_at st b i).pin_count 0 ≡ false) where
    flag : ((frame_at st b i).is_dirty || dirty) ≡ false → (frame_at st b i).is_dirty ≡ false
    flag c = ground (arith, c)

    last-Allowed :
        nat_eq (frame_at st b i).pin_count 1 ≡ true
        → Allowed st b i
            ((frame_at st b i).pin_count - 1)
            ((frame_at st b i).is_dirty || dirty)
            (i ∷ b.lru)
    unfolding member distinct
    last-Allowed last = record {
      key = make_page_key f n;
      found = found;
      flag = flag;
      once = ground (arith, pinned-not_idle b i s pinned, s.lru_once);
      others = λ j h ne. ground (arith, h, nat_eq_iff i j);
      self = λ h. omega (arith, (nat_eq_iff (frame_at st b i).pin_count 1).0 last);
    }

    more-Allowed :
        Allowed st b i ((frame_at st b i).pin_count - 1) ((frame_at st b i).is_dirty || dirty) b.lru
    more-Allowed = record {
      key = make_page_key f n;
      found = found;
      flag = flag;
      once = s.lru_once;
      others = λ j h ne. h;
      self = λ h. absurd (ground (arith, h, pinned-not_idle b i s pinned));
    }

  -- Giving a page back to a sound pool leaves it sound and every page seen as before, whether the
  -- page is in the pool, pinned or neither.
  pub unpin_page-view :
      (b : BufferPool st) (f n : ℕ) (dirty : Bool) (g m : ℕ)
      → IsSound st b
      → IsSound st (unpin_page st f n dirty b)
        × (view st (unpin_page st f n dirty b) g m ≡ view st b g m)
  unfolding unpin_page
  unpin_page-view b f n dirty g m s =
      elim (Option-cases (lookup (make_page_key f n) b.page_table)) [
        | inl miss ↦ rw (miss, unpin_page) (s, refl)
        | inr (i, found) ↦ elim (Bool-cases (nat_eq (frame_at st b i).pin_count 0)) [
          | inl unpinned ↦ rw (found, unpinned, unpin_page) (s, refl)
          | inr pinned ↦ elim (Bool-cases (nat_eq (frame_at st b i).pin_count 1)) [
            | inl last ↦
                let a = last-Allowed b f n i dirty s found pinned last in
                rw (found, pinned, last, unpin_page)
                  (touched-IsSound st s a b.cache_hits, view-touched st s a b.cache_hits g m)
            | inr more ↦
                let a = more-Allowed b f n i dirty s found pinned in
                rw (found, pinned, more, unpin_page)
                  (touched-IsSound st s a b.cache_hits, view-touched st s a b.cache_hits g m)
          ]
        ]
      ]
