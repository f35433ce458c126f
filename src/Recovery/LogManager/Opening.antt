-- ===== src/Recovery/LogManager/Opening.antt =====
-- Opening a log that an earlier session left (src/recovery/LogManager.cpp, `open`).
use my_db.Base.{
  ℕ, ◌+◌, ◌-◌, ◌%◌, ◌^◌, ◌≤◌, ◌<◌, ◌≡◌, refl, some, List, [], ◌∷◌, ◌++◌, append_assoc, arith,
  length, leb, take, All, true, length-append, length-take, take-append_of_le, Bool-cases, inl, inr,
}
use my_db.Base.Bytes.{Bytes, to_le, length-to_le, read_le-to_le, read_bytes-none}
use my_db.Recovery.LogManager.Serialize.{LogRecord, serialize_record, commit_txn}
use my_db.Recovery.LogManager.Log.{
  LogManager, new_log, frame, read_frame, read_all_records, bump_lsn, open_log, append_log,
  flush_log, log_commit, blank,
}
use my_db.Recovery.LogManager.Frames.{
  IsStorable, frames, IsTorn, read_all_records-frames, length-frame,
}
use my_db.Recovery.LogManager.Calls.{numbered}

-- No LSN is at the end of its range.
abbrev pub HasRoom : LogRecord → Type 0
HasRoom r = r.lsn + 1 < 2 ^ 64

bump_lsn_bounds :
    (next m : ℕ) (rs : List LogRecord)
    → All HasRoom rs
    → bump_lsn next rs ≡ m
    → (next ≤ m) × All (λ r. r.lsn < m) rs
unfolding bump_lsn
bump_lsn_bounds next m [] h e = (omega arith, tt)
bump_lsn_bounds next m (r ∷ rs) h e = elim (Bool-cases (leb next r.lsn)) [
  | inl bump ↦
      let wrap : (r.lsn + 1) % 2 ^ 64 ≡ r.lsn + 1 = omega (arith, h.0) in
      let (grows, above) = bump_lsn_bounds (r.lsn + 1) m rs h.1 (rw (bump, wrap) at e) in
      (ground arith, (omega arith, above))
  | inr keep ↦
      let (grows, above) = bump_lsn_bounds next m rs h.1 (rw keep at e) in
      (grows, (ground arith, above))
]

-- A new manager that opens a file of whole records and a torn end numbers its next record above
-- every record of the file.
pub open_log-frames :
    (rs : List LogRecord) (torn : Bytes)
    → All IsStorable rs
    → All HasRoom rs
    → IsTorn torn
    → (lm : LogManager) × (open_log (frames rs ++ torn) new_log ≡ some lm)
      × (1 ≤ lm.next_lsn)
      × All (λ r. r.lsn < lm.next_lsn) rs
unfolding open_log
open_log-frames rs torn h room t =
    let (grows, above) = bump_lsn_bounds 1 (bump_lsn 1 rs) rs room refl in
    (
      record { is_open = true; next_lsn = bump_lsn 1 rs; file = frames rs ++ torn; buffered = [] },
      rw (read_all_records-frames rs torn h t),
      grows,
      above,
    )

-- What is written behind a torn record is taken for its missing bytes.
IsTorn-append :
    (k : ℕ) (r : LogRecord) (bs : Bytes)
    → IsStorable r
    → 4 ≤ k
    → k + length bs < length (frame r)
    → IsTorn (take k (frame r) ++ bs)
unfolding frame read_frame
IsTorn-append k r bs h four lt =
    let n = length (serialize_record r) in
    let size : n % 2 ^ 32 ≡ n = omega (arith, h.size) in
    let body = take (k - 4) (serialize_record r) ++ bs in
    let head : length (to_le 4 n) ≡ 4 = length-to_le 4 n in
    let short : length body < n = omega (
      arith,
      length-append (take (k - 4) (serialize_record r)) bs,
      length-take (k - 4) (serialize_record r),
      length-frame r,
    ) in
    rw
      (
        size,
        take-append_of_le k (to_le 4 n) (serialize_record r) (omega arith),
        head,
        append_assoc,
        read_le-to_le body 4 n (omega (arith, h.size)),
      )
      (read_bytes-none n body short)

-- A manager that opened a file with a torn end writes behind it: while the missing bytes of the
-- torn record outnumber those of a commit record, the flushed commit is not read back.
pub log_commit-torn :
    (rs : List LogRecord) (r : LogRecord) (k txn : ℕ) (lm : LogManager)
    → All IsStorable rs
    → IsStorable r
    → 4 ≤ k
    → k + length (frame (numbered lm.next_lsn (blank commit_txn txn))) < length (frame r)
    → lm.is_open ≡ true
    → lm.buffered ≡ []
    → lm.file ≡ frames rs ++ take k (frame r)
    → read_all_records (log_commit txn lm).1.file ≡ some rs
unfolding log_commit append_log flush_log
log_commit-torn rs r k txn lm hs h four lt opened empty file =
    rw (opened, empty, file, append_assoc)
      (read_all_records-frames rs
        (take k (frame r) ++ frame (numbered lm.next_lsn (blank commit_txn txn))) hs
        (IsTorn-append k r (frame (numbered lm.next_lsn (blank commit_txn txn))) h four lt))
