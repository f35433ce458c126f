-- ===== src/Tests/Wal.antt =====
-- The log at small inputs (src/recovery/LogManager.cpp).
use my_db.Base.{ℕ, ◌≤◌, ◌<◌, ◌≡◌, refl, true, some, List, [], ◌∷◌, ◌++◌, take, All, arith}
use my_db.Base.Bytes.{Bytes, codes, to_le, from_le, read_bytes, read_le}
use my_db.Recovery.LogManager.Serialize.{
  LogRecord, Fits, begin_txn, commit_txn, type_code, code_type, serialize_record,
  deserialize_record,
}
use my_db.Recovery.LogManager.RoundTrip.{deserialize-serialize}
use my_db.Recovery.LogManager.Log.{
  LogManager, new_log, frame, read_frame, read_records, read_all_records, bump_lsn, open_log,
  append_log, flush_log, log_begin, log_commit, log_insert, log_delete, blank, insert_record, crash,
}
use my_db.Recovery.LogManager.Frames.{IsStorable, frames}
use my_db.Recovery.LogManager.Calls.{
  LogCall, call_begin, call_commit, call_insert, run_call, run_calls, append_abstract,
  call_abstract, calls_abstract, AbstractLog, Refines, crash-run_calls, numbered,
}
use my_db.Recovery.LogManager.Opening.{open_log-frames, log_commit-torn}

program : Unit {0}
unfolding to_le from_le read_bytes read_le type_code code_type serialize_record deserialize_record
    frame read_frame read_records read_all_records bump_lsn open_log append_log flush_log log_begin
    log_commit log_insert log_delete crash frames run_call run_calls append_abstract call_abstract
    calls_abstract
program = tt

abbrev row : LogRecord
row = insert_record 7 (codes "t") (record { page_id = 2; slot_num = 3 }) (1 ∷ 2 ∷ 3 ∷ [])

row-Fits : Fits row
row-Fits = record {
  lsn = omega arith;
  named = tt;
  txn = omega arith;
  name = omega arith;
  page = omega arith;
  slot = omega arith;
  old = omega arith;
  new = omega arith;
}

row-IsStorable : IsStorable row
unfolding program
row-IsStorable = record { fits = row-Fits; size = omega arith }

begin-IsStorable : IsStorable (blank begin_txn 7)
unfolding program
begin-IsStorable = record {
  fits = record {
    lsn = omega arith;
    named = tt;
    txn = omega arith;
    name = omega arith;
    page = omega arith;
    slot = omega arith;
    old = omega arith;
    new = omega arith;
  };
  size = omega arith;
}

commit-IsStorable : IsStorable (blank commit_txn 7)
unfolding program
commit-IsStorable = record {
  fits = record {
    lsn = omega arith;
    named = tt;
    txn = omega arith;
    name = omega arith;
    page = omega arith;
    slot = omega arith;
    old = omega arith;
    new = omega arith;
  };
  size = omega arith;
}

deserialize-serialize_example : deserialize_record (serialize_record row) ≡ some row
deserialize-serialize_example = deserialize-serialize row row-Fits

abbrev opened : LogManager
opened = record new_log { is_open = true }

abbrev nothing : AbstractLog
nothing = record { next = 1; durable = []; pending = [] }

opened-Refines : Refines opened nothing
unfolding program
opened-Refines = record {
  next = refl;
  holds = record {
    opened = refl;
    lsn = omega arith;
    file = refl;
    buffered = refl;
    durable_fit = tt;
    pending_fit = tt;
  };
}

abbrev calls : List LogCall
calls =
    call_begin 7
    ∷ call_insert 7 (codes "t") (record { page_id = 2; slot_num = 3 }) (1 ∷ 2 ∷ 3 ∷ [])
    ∷ call_commit 7
    ∷ call_begin 7
    ∷ []

-- Forty bytes of the buffer reach the disk: the commit was flushed, the second BEGIN is whole too.
crash_run :
    read_all_records (crash 40 (run_calls calls opened))
    ≡ some (
        numbered 1 (blank begin_txn 7)
        ∷ numbered 2 row
        ∷ numbered 3 (blank commit_txn 7)
        ∷ numbered 4 (blank begin_txn 7)
        ∷ [])
unfolding program
crash_run = refl

crash-run_calls_example :
    (n : ℕ) × (read_all_records (crash 9 (run_calls calls opened))
      ≡ some
          ((calls_abstract calls nothing).durable ++ take n (calls_abstract calls nothing).pending))
crash-run_calls_example =
    crash-run_calls calls opened nothing 9
      (
        (begin-IsStorable, tt),
        ((row-IsStorable, tt), ((commit-IsStorable, tt), ((begin-IsStorable, tt), tt))),
      )
      opened-Refines

abbrev torn : Bytes
torn = 40 ∷ 0 ∷ 0 ∷ 0 ∷ 9 ∷ []

open_log-frames_example :
    (lm : LogManager) × (open_log (frames (row ∷ []) ++ torn) new_log ≡ some lm)
    × (1 ≤ lm.next_lsn)
    × All (λ r. r.lsn < lm.next_lsn) (row ∷ [])
unfolding program
open_log-frames_example =
    open_log-frames (row ∷ []) torn (row-IsStorable, tt) (omega arith, tt) refl

-- A row of a hundred bytes whose record was cut after ten bytes.
abbrev big_row : LogRecord
big_row = record row {
  new_data =
      codes
        "0123456789012345678901234567890123456789012345678901234567890123456789012345678901234567890123456789";
}

big_row-IsStorable : IsStorable big_row
unfolding program
big_row-IsStorable = record {
  fits = record {
    lsn = omega arith;
    named = tt;
    txn = omega arith;
    name = omega arith;
    page = omega arith;
    slot = omega arith;
    old = omega arith;
    new = omega arith;
  };
  size = omega arith;
}

abbrev torn_log : LogManager
torn_log = record {
  is_open = true;
  next_lsn = 5;
  file = frames (row ∷ []) ++ take 10 (frame big_row);
  buffered = [];
}

log_commit-torn_example : read_all_records (log_commit 7 torn_log).1.file ≡ some (row ∷ [])
unfolding program
log_commit-torn_example =
    log_commit-torn (row ∷ []) big_row 10 7 torn_log (row-IsStorable, tt) big_row-IsStorable
      (omega arith) (omega arith) refl refl refl
