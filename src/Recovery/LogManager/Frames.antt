-- ===== src/Recovery/LogManager/Frames.antt =====
-- Reading a file of whole records, with an incomplete one at its end.
use native.Mathlib.Decide.{dec_lt}
use my_db.Base.{
  ◌-◌, take-append_of_le, ℕ, zero, suc, ◌+◌, ◌%◌, ◌^◌, ◌≤◌, ◌<◌, ◌≡◌, refl, none, some, List, [],
  ◌∷◌, ◌++◌, append_assoc, arith, length, take, All, length-append, length-take, ◌>>=◌,
}
use my_db.Base.Bytes.{
  Bytes, to_le, length-to_le, read_le-to_le, read_bytes-append, read_bytes-none, read_le-none,
}
use my_db.Recovery.LogManager.Serialize.{LogRecord, Fits, serialize_record}
use my_db.Recovery.LogManager.RoundTrip.{deserialize-serialize}
use my_db.Recovery.LogManager.Log.{frame, read_frame, read_records, read_all_records}

-- A record that the log can hold.
pub record IsStorable (r : LogRecord) : Type 0 where
  pub fits : Fits r
  pub size : length (serialize_record r) < 2 ^ 32

unfoldable pub frames : List LogRecord → Bytes
frames [] = []
frames (r ∷ rs) = frame r ++ frames rs

pub frames-append : (rs ps : List LogRecord) → frames (rs ++ ps) ≡ frames rs ++ frames ps
unfolding frames
frames-append [] ps = refl
frames-append (r ∷ rs) ps = rw (frames-append rs ps, append_assoc)

pub length-frame : (r : LogRecord) → length (frame r) ≡ 4 + length (serialize_record r)
unfolding frame
length-frame r = omega (
  arith,
  length-append (to_le 4 (length (serialize_record r) % 2 ^ 32)) (serialize_record r),
  length-to_le 4 (length (serialize_record r) % 2 ^ 32),
)

read_frame-frame :
    (r : LogRecord) (rest : Bytes)
    → IsStorable r
    → read_frame (frame r ++ rest) ≡ some (serialize_record r, rest)
unfolding read_frame frame
read_frame-frame r rest h =
    let n = length (serialize_record r) in
    let size : n % 2 ^ 32 ≡ n = omega (arith, h.size) in
    rw (
      size,
      append_assoc,
      read_le-to_le (serialize_record r ++ rest) 4 n (omega (arith, h.size)),
      read_bytes-append rest n (serialize_record r) refl,
    )

-- A whole record in front is read, and the loop goes on behind it.
read_records-frame :
    (fuel : ℕ) (r : LogRecord) (rest : Bytes)
    → IsStorable r
    → read_records (suc fuel) (frame r ++ rest) ≡ (read_records fuel rest >>= λ rs. some (r ∷ rs))
unfolding read_records
read_records-frame fuel r rest h =
    rw (read_frame-frame r rest h, read_records) (rw (deserialize-serialize r h.fits))

-- What is left of a file where no whole record stands.
abbrev pub IsTorn : Bytes → Type 0
IsTorn bs = read_frame bs ≡ none

read_records-torn : (fuel : ℕ) (torn : Bytes) → IsTorn torn → read_records fuel torn ≡ some []
unfolding read_records
read_records-torn zero torn h = refl
read_records-torn (suc fuel) torn h = rw (h, read_records)

read_records-frames :
    (fuel : ℕ) (rs : List LogRecord) (torn : Bytes)
    → All IsStorable rs
    → IsTorn torn
    → length rs ≤ fuel
    → read_records fuel (frames rs ++ torn) ≡ some rs
unfolding frames
read_records-frames fuel [] torn h t enough = read_records-torn fuel torn t
read_records-frames zero (r ∷ rs) torn h t enough = absurd (omega arith)
read_records-frames (suc fuel) (r ∷ rs) torn h t enough = rw (
  append_assoc,
  read_records-frame fuel r (frames rs ++ torn) h.0,
  read_records-frames fuel rs torn h.1 t (omega arith),
)

length-frames-le : (rs : List LogRecord) → length rs ≤ length (frames rs)
unfolding frames
length-frames-le [] = omega arith
length-frames-le (r ∷ rs) =
    omega (arith, length-frames-le rs, length-append (frame r) (frames rs), length-frame r)

-- A file of whole records and a torn end is read as these records.
pub read_all_records-frames :
    (rs : List LogRecord) (torn : Bytes)
    → All IsStorable rs
    → IsTorn torn
    → read_all_records (frames rs ++ torn) ≡ some rs
unfolding read_all_records
read_all_records-frames rs torn h t =
    read_records-frames (length (frames rs ++ torn)) rs torn h t
      (omega (arith, length-frames-le rs, length-append (frames rs) torn))

-- A first part of a record's bytes, short of the whole, is torn.
pub IsTorn-take :
    (k : ℕ) (r : LogRecord) → IsStorable r → k < length (frame r) → IsTorn (take k (frame r))
unfolding frame read_frame
IsTorn-take k r h lt =
    let n = length (serialize_record r) in
    let size : n % 2 ^ 32 ≡ n = omega (arith, h.size) in
    let body = serialize_record r in
    elim (dec_lt k 4) [
      | yes short ↦
          let len : length (take k (to_le 4 (n % 2 ^ 32) ++ body)) < 4 =
            omega (arith, length-take k (to_le 4 (n % 2 ^ 32) ++ body)) in
          rw (read_le-none 4 (take k (to_le 4 (n % 2 ^ 32) ++ body)) len)
      | no long ↦
          let head : length (to_le 4 n) ≡ 4 = length-to_le 4 n in
          rw
            (
              size,
              take-append_of_le k (to_le 4 n) body (omega arith),
              head,
              read_le-to_le (take (k - 4) body) 4 n (omega (arith, h.size)),
            )
            (read_bytes-none n (take (k - 4) body)
              (omega (arith, length-take (k - 4) body, length-frame r)))
    ]
