-- ===== src/Recovery/LogManager/Log.antt =====
-- The log file: appending, flushing, reading and opening (src/recovery/LogManager.cpp).
use my_db.Base.{
  ℕ, zero, suc, ◌+◌, ◌%◌, ◌^◌, Bool, true, false, Option, none, some, List, [], ◌∷◌, ◌++◌, length,
  leb, take, ◌>>=◌, if◌then◌else◌,
}
use my_db.Base.Bytes.{Bytes, to_le, read_le, read_bytes}
use my_db.Common.Rid.{Rid}
use my_db.Recovery.LogManager.Serialize.{
  LogRecord, LogRecordType, insert, delete, begin_txn, commit_txn, abort_txn, serialize_record,
  deserialize_record,
}

-- `file` is what has reached the disk, `buffered` what the output stream still holds.
pub record LogManager : Type 0 where
  pub is_open : Bool
  pub next_lsn : ℕ
  pub file : Bytes
  pub buffered : Bytes

-- The size of a record, then its bytes.
unfoldable pub frame : LogRecord → Bytes
frame r = to_le 4 (length (serialize_record r) % 2 ^ 32) ++ serialize_record r

-- One round of the loop of `readAllRecords`: the next record's bytes and what follows them; `none`
-- where the size or the record is incomplete, at which the loop ends.
unfoldable pub read_frame : Bytes → Option (Bytes × Bytes)
read_frame bs = do (size, rest) ← read_le 4 bs; read_bytes size rest

-- The loop. Each round takes four bytes or more, so the length of the file is enough fuel.
unfoldable pub read_records : ℕ → Bytes → Option (List LogRecord)
read_records zero bs = some []
read_records (suc fuel) bs = elim (read_frame bs) [
  | none ↦ some []
  | some (buffer, rest) ↦ do
    r ← deserialize_record buffer
    rs ← read_records fuel rest
    some (r ∷ rs)
]

unfoldable pub read_all_records : Bytes → Option (List LogRecord)
read_all_records file = read_records (length file) file

-- The constructor.
abbrev pub new_log : LogManager
new_log = record { is_open = false; next_lsn = 1; file = []; buffered = [] }

unfoldable pub bump_lsn : ℕ → List LogRecord → ℕ
bump_lsn next [] = next
bump_lsn next (r ∷ rs) = bump_lsn (if leb next r.lsn then (r.lsn + 1) % 2 ^ 64 else next) rs

-- `open` on a path where the file holds `file`, an absent file being an empty one.
unfoldable pub open_log : Bytes → LogManager → Option LogManager
open_log file lm = do
  rs ← read_all_records file
  some (record { is_open = true; next_lsn = bump_lsn lm.next_lsn rs; file = file; buffered = [] })

-- A write to a stream that is not open is lost; the LSN is used up all the same.
unfoldable pub append_log : LogRecord → LogManager → ℕ × LogManager
append_log r lm =
    let rec = record r { lsn = lm.next_lsn } in
    let written = lm.buffered ++ frame rec in
    (
      lm.next_lsn,
      record lm {
        next_lsn = (lm.next_lsn + 1) % 2 ^ 64;
        buffered = if lm.is_open then written else lm.buffered;
      },
    )

unfoldable pub flush_log : LogManager → LogManager
flush_log lm = if lm.is_open then record lm { file = lm.file ++ lm.buffered; buffered = [] } else lm

-- `LogRecord()` of a type and a transaction.
abbrev pub blank : LogRecordType → ℕ → LogRecord
blank t txn = record {
  lsn = 0;
  type = t;
  txn_id = txn;
  table_name = [];
  rid = record { page_id = 0; slot_num = 0 };
  old_data = [];
  new_data = [];
}

unfoldable pub log_begin : ℕ → LogManager → ℕ × LogManager
log_begin txn lm = append_log (blank begin_txn txn) lm

unfoldable pub log_commit : ℕ → LogManager → ℕ × LogManager
log_commit txn lm = let (lsn, lm') = append_log (blank commit_txn txn) lm in (lsn, flush_log lm')

unfoldable pub log_abort : ℕ → LogManager → ℕ × LogManager
log_abort txn lm = append_log (blank abort_txn txn) lm

abbrev pub insert_record : ℕ → Bytes → Rid → Bytes → LogRecord
insert_record txn table rid bytes = record (blank insert txn) {
  table_name = table;
  rid = rid;
  new_data = bytes;
}

abbrev pub delete_record : ℕ → Bytes → Rid → Bytes → LogRecord
delete_record txn table rid bytes = record (blank delete txn) {
  table_name = table;
  rid = rid;
  old_data = bytes;
}

unfoldable pub log_insert : ℕ → Bytes → Rid → Bytes → LogManager → ℕ × LogManager
log_insert txn table rid bytes lm = append_log (insert_record txn table rid bytes) lm

unfoldable pub log_delete : ℕ → Bytes → Rid → Bytes → LogManager → ℕ × LogManager
log_delete txn table rid bytes lm = append_log (delete_record txn table rid bytes) lm

-- What a crash leaves on the disk: the file and some first part of the stream's buffer, which the
-- stream may have written of itself.
unfoldable pub crash : ℕ → LogManager → Bytes
crash k lm = lm.file ++ take k lm.buffered
