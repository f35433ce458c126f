-- ===== src/Recovery/LogManager/Serialize.antt =====
-- A log record and its bytes: `serializeRecord` and `deserializeRecord` of
-- src/recovery/LogManager.cpp.
use my_db.Base.{
  ℕ, ◌%◌, ◌^◌, ◌<◌, ◌≡◌, Option, some, ◌++◌, arith, length, ◌>>=◌, nat_eq, if◌then◌else◌,
}
use my_db.Base.Bytes.{Bytes, to_le, read_le, read_bytes}
use my_db.Common.Rid.{Rid}

-- A byte that names no enumerator is cast to the enumeration all the same: `unnamed`.
pub data LogRecordType : Type 0 where
  insert delete update begin_txn commit_txn abort_txn checkpoint : LogRecordType
  unnamed : ℕ → LogRecordType

-- The transaction id is the 32-bit pattern of an `int`.
pub record LogRecord : Type 0 where
  pub lsn : ℕ
  pub type : LogRecordType
  pub txn_id : ℕ
  pub table_name : Bytes
  pub rid : Rid
  pub old_data : Bytes
  pub new_data : Bytes

-- `static_cast<uint8_t>(record.type)`
unfoldable pub type_code : LogRecordType → ℕ
type_code insert = 0
type_code delete = 1
type_code update = 2
type_code begin_txn = 3
type_code commit_txn = 4
type_code abort_txn = 5
type_code checkpoint = 6
type_code (unnamed c) = c % 256

-- `static_cast<LogRecordType>(byte)`
unfoldable pub code_type : ℕ → LogRecordType
code_type c =
    if nat_eq c 0
    then insert
    else if nat_eq c 1
    then delete
    else if nat_eq c 2
    then update
    else if nat_eq c 3
    then begin_txn
    else if nat_eq c 4
    then commit_txn
    else if nat_eq c 5
    then abort_txn
    else if nat_eq c 6
    then checkpoint
    else unnamed c

-- The length fields hold the size cut to their width.
unfoldable pub serialize_record : LogRecord → Bytes
serialize_record r =
    to_le 8 r.lsn
    ++ (to_le 1 (type_code r.type)
        ++ (to_le 4 r.txn_id
            ++ (to_le 2 (length r.table_name % 2 ^ 16)
                ++ (r.table_name
                    ++ (to_le 4 r.rid.page_id
                        ++ (to_le 2 r.rid.slot_num
                            ++ (to_le 4 (length r.old_data % 2 ^ 32)
                                ++ (r.old_data
                                    ++ (to_le 4 (length r.new_data % 2 ^ 32) ++ r.new_data)))))))))

-- `none` where a length field sends a read past the end of the buffer, which is not checked.
unfoldable pub deserialize_record : Bytes → Option LogRecord
deserialize_record buf = do
  (lsn, b1) ← read_le 8 buf
  (code, b2) ← read_le 1 b1
  (txn, b3) ← read_le 4 b2
  (name_len, b4) ← read_le 2 b3
  (name, b5) ← read_bytes name_len b4
  (page, b6) ← read_le 4 b5
  (slot, b7) ← read_le 2 b6
  (old_len, b8) ← read_le 4 b7
  (old, b9) ← read_bytes old_len b8
  (new_len, b10) ← read_le 4 b9
  (new, b11) ← read_bytes new_len b10
  some (record {
    lsn = lsn;
    type = code_type code;
    txn_id = txn;
    table_name = name;
    rid = record { page_id = page; slot_num = slot };
    old_data = old;
    new_data = new;
  })

-- Every field fits the width that it is written in, and the type is one of the seven.
abbrev pub IsNamed : LogRecordType → Type 0
IsNamed (unnamed _) = ⊥
IsNamed _ = Unit

pub record Fits (r : LogRecord) : Type 0 where
  pub lsn : r.lsn < 2 ^ 64
  pub named : IsNamed r.type
  pub txn : r.txn_id < 2 ^ 32
  pub name : length r.table_name < 2 ^ 16
  pub page : r.rid.page_id < 2 ^ 32
  pub slot : r.rid.slot_num < 2 ^ 16
  pub old : length r.old_data < 2 ^ 32
  pub new : length r.new_data < 2 ^ 32

pub code_type-type_code : (t : LogRecordType) → IsNamed t → code_type (type_code t) ≡ t
unfolding code_type type_code
code_type-type_code (unnamed _) h = absurd h
code_type-type_code _ h = ground arith

pub type_code-lt : (t : LogRecordType) → type_code t < 256 ^ 1
unfolding type_code
type_code-lt (unnamed c) = omega arith
type_code-lt _ = omega arith
