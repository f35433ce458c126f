-- ===== src/Recovery/LogManager/Durable.antt =====
-- What a crash leaves of the log of src/recovery/LogManager.cpp, seen as two lists of records: the
-- durable and the pending ones.
use native.Mathlib.Decide.{dec_lt}
use my_db.Base.{
  ℕ, zero, suc, ◌-◌, ◌^◌, ◌<◌, ◌≡◌, refl, true, some, List, [], ◌∷◌, ◌++◌, append_assoc, arith,
  length, take, All, All-append, All-take, take-append_of_le, take-append_of_lt,
}
use my_db.Base.Bytes.{Bytes, read_le}
use my_db.Recovery.LogManager.Serialize.{LogRecord}
use my_db.Recovery.LogManager.Log.{LogManager, frame, read_frame, read_all_records, crash}
use my_db.Recovery.LogManager.Frames.{
  IsStorable, frames, frames-append, IsTorn, IsTorn-take, read_all_records-frames,
}

-- The manager is open on a file of the records `durable`, and has the records `pending` in its
-- stream's buffer.
pub record Holds (lm : LogManager) (durable pending : List LogRecord) : Type 0 where
  pub opened : lm.is_open ≡ true
  pub lsn : lm.next_lsn < 2 ^ 64
  pub file : lm.file ≡ frames durable
  pub buffered : lm.buffered ≡ frames pending
  pub durable_fit : All IsStorable durable
  pub pending_fit : All IsStorable pending

-- Cutting the bytes of whole records leaves whole records and a torn end.
take-frames :
    (k : ℕ) (ps : List LogRecord)
    → All IsStorable ps
    → (n : ℕ) × (torn : Bytes) × (take k (frames ps) ≡ frames (take n ps) ++ torn) × IsTorn torn
unfolding frames read_frame read_le
take-frames zero ps h = (0, [], refl, refl)
take-frames (suc k) [] h = (0, [], refl, refl)
take-frames (suc k) (p ∷ ps) h = elim (dec_lt (suc k) (length (frame p))) [
  | yes lt ↦ (
    0,
    take (suc k) (frame p),
    take-append_of_lt (suc k) (frame p) (frames ps) (omega arith),
    IsTorn-take (suc k) p h.0 lt,
  )
  | no ge ↦
      let (n, torn, cut, t) = take-frames (suc k - length (frame p)) ps h.1 in
      (
        suc n,
        torn,
        rw (take-append_of_le (suc k) (frame p) (frames ps) (omega arith), cut, append_assoc),
        t,
      )
]

-- After a crash the log is read as the durable records and some first part of the pending ones.
pub crash-Holds :
    (k : ℕ) (lm : LogManager) (durable pending : List LogRecord)
    → Holds lm durable pending
    → (n : ℕ) × (read_all_records (crash k lm) ≡ some (durable ++ take n pending))
unfolding crash
crash-Holds k lm durable pending h =
    let (n, torn, cut, t) = take-frames k pending h.pending_fit in
    (
      n,
      rw (h.file, h.buffered, cut, ← append_assoc, ← frames-append)
          (read_all_records-frames (durable ++ take n pending) torn
            (All-append IsStorable durable (take n pending) h.durable_fit
              (All-take IsStorable n pending h.pending_fit))
            t),
    )
