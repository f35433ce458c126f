-- ===== src/Storage/BufferPool/Relisting.antt =====
-- The pool of src/storage/BufferPool.cpp with fewer free frames, or another count of misses.
use my_db.Base.{nat_Eq, ℕ, ◌≡◌, refl, true, List, member}
use my_db.Storage.PageStore.{PageStore}
use my_db.Storage.BufferPool.{BufferPool}
use my_db.Storage.BufferPool.Indices.{distinct}
use my_db.Storage.BufferPool.View.{view, IsSound, Keeps}

module _ (st : PageStore) where
  -- A pool with a part of the free frames, and another count of misses.
  abbrev pub relisted : List ℕ → ℕ → BufferPool st → BufferPool st
  relisted free misses b = record b { free_list = free; cache_misses = misses }

  pub relisted-IsSound :
      (b : BufferPool st) (free : List ℕ) (misses : ℕ)
      → IsSound st b
      → distinct free ≡ true
      → ((i : ℕ) → member i free ≡ true → member i b.free_list ≡ true)
      → IsSound st (relisted free misses b)
  relisted-IsSound b free misses s once part = record {
    disk = s.disk;
    entry = λ k i found.
        let e = s.entry k i found in
        record {
          file = e.file;
          page = e.page;
          frame = e.frame;
          valid = e.valid;
          key = e.key;
          holds = record {
            at = e.holds.at;
            file = e.holds.file;
            num = e.holds.num;
            id = e.holds.id;
            page = e.holds.page;
            clean = e.holds.clean;
          };
        };
    idle =
        λ i h. let o = s.idle i h in record { key = o.key; found = o.found; unpinned = o.unpinned };
    unused = λ i h.
        let o = s.unused i (part i h) in record { frame = o.frame; at = o.at; file = o.file };
    lru_once = s.lru_once;
    free_once = once;
  }

  pub relisted-Keeps :
      (b : BufferPool st) (free : List ℕ) (misses : ℕ) → Keeps st b (relisted free misses b)
  unfolding view
  relisted-Keeps b free misses = record { views = λ f n v. refl; pinned = λ k i found pin. found }
