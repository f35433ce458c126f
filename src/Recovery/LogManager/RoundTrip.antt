-- ===== src/Recovery/LogManager/RoundTrip.antt =====
-- Reading back the bytes of a record (src/recovery/LogManager.cpp).
use my_db.Base.{ℕ, ◌%◌, ◌^◌, ◌≡◌, refl, some, [], append-nil, arith, length}
use my_db.Base.Bytes.{Bytes, read_bytes, read_le-to_le, read_bytes-append}
use my_db.Recovery.LogManager.Serialize.{
  LogRecord, Fits, serialize_record, deserialize_record, code_type-type_code, type_code,
  type_code-lt,
}

read_bytes_all : (n : ℕ) (bs : Bytes) → n ≡ length bs → read_bytes n bs ≡ some (bs, [])
read_bytes_all n bs h = rw (append-nil bs) at (read_bytes-append [] n bs h)

-- A record whose fields fit their widths is read back from its bytes.
pub deserialize-serialize :
    (r : LogRecord) → Fits r → deserialize_record (serialize_record r) ≡ some r
unfolding deserialize_record serialize_record
deserialize-serialize r h =
    let name_len : length r.table_name % 2 ^ 16 ≡ length r.table_name = omega (arith, h.name) in
    let old_len : length r.old_data % 2 ^ 32 ≡ length r.old_data = omega (arith, h.old) in
    let new_len : length r.new_data % 2 ^ 32 ≡ length r.new_data = omega (arith, h.new) in
    rw (name_len, old_len, new_len)
      (rw (
        read_le-to_le _ 8 r.lsn (omega (arith, h.lsn)),
        read_le-to_le _ 1 (type_code r.type) (type_code-lt r.type),
        read_le-to_le _ 4 r.txn_id (omega (arith, h.txn)),
        read_le-to_le _ 2 (length r.table_name) (omega (arith, h.name)),
        read_bytes-append _ (length r.table_name) r.table_name refl,
        read_le-to_le _ 4 r.rid.page_id (omega (arith, h.page)),
        read_le-to_le _ 2 r.rid.slot_num (omega (arith, h.slot)),
        read_le-to_le _ 4 (length r.old_data) (omega (arith, h.old)),
        read_bytes-append _ (length r.old_data) r.old_data refl,
        read_le-to_le _ 4 (length r.new_data) (omega (arith, h.new)),
        read_bytes_all (length r.new_data) r.new_data refl,
        code_type-type_code r.type h.named,
      ))
