-- ===== src/Recovery/LogManager/Calls.antt =====
-- Sequences of calls of the log (src/recovery/LogManager.cpp), against the abstract log of durable
-- and pending records.
use my_db.Base.{
  ℕ, ◌+◌, ◌%◌, ◌^◌, ◌<◌, ◌≡◌, refl, some, List, [], ◌∷◌, ◌++◌, append-nil, arith, length, take, All,
  All-append, length-append,
}
use my_db.Base.Bytes.{Bytes, length-to_le}
use my_db.Common.Rid.{Rid}
use my_db.Recovery.LogManager.Serialize.{
  LogRecord, serialize_record, begin_txn, commit_txn, abort_txn,
}
use my_db.Recovery.LogManager.Log.{
  LogManager, read_all_records, append_log, flush_log, log_begin, log_commit, log_abort, log_insert,
  log_delete, blank, insert_record, delete_record, crash,
}
use my_db.Recovery.LogManager.Frames.{IsStorable, frames, frames-append}
use my_db.Recovery.LogManager.Durable.{Holds, crash-Holds}

-- The record as `appendLog` writes it.
abbrev pub numbered : ℕ → LogRecord → LogRecord
numbered n r = record r { lsn = n }

length-serialize-numbered :
    (n : ℕ) (r : LogRecord) → length (serialize_record (numbered n r)) ≡ length (serialize_record r)
unfolding serialize_record
length-serialize-numbered n r = simp (length-append, length-to_le)

IsStorable-numbered :
    (n : ℕ) (r : LogRecord) → n < 2 ^ 64 → IsStorable r → IsStorable (numbered n r)
IsStorable-numbered n r lt h = record {
  fits = record {
    lsn = lt;
    named = h.fits.named;
    txn = h.fits.txn;
    name = h.fits.name;
    page = h.fits.page;
    slot = h.fits.slot;
    old = h.fits.old;
    new = h.fits.new;
  };
  size = omega (arith, h.size, length-serialize-numbered n r);
}

module _ {lm : LogManager} {durable pending : List LogRecord} (h : Holds lm durable pending) where
  pub append_log-Holds :
      (r : LogRecord)
      → IsStorable r
      → Holds (append_log r lm).1 durable (pending ++ numbered lm.next_lsn r ∷ [])
  unfolding append_log frames
  append_log-Holds r s = record {
    opened = h.opened;
    lsn = omega arith;
    file = h.file;
    buffered = rw (h.opened, h.buffered, frames-append, append-nil);
    durable_fit = h.durable_fit;
    pending_fit =
        All-append IsStorable pending (numbered lm.next_lsn r ∷ []) h.pending_fit
          (IsStorable-numbered lm.next_lsn r h.lsn s, tt);
  }

  pub flush_log-Holds : Holds (flush_log lm) (durable ++ pending) []
  unfolding flush_log frames
  flush_log-Holds = rw h.opened (record {
    opened = refl;
    lsn = h.lsn;
    file = rw (h.file, h.buffered, frames-append);
    buffered = refl;
    durable_fit = All-append IsStorable durable pending h.durable_fit h.pending_fit;
    pending_fit = tt;
  })

-- The calls that the rest of the program makes of an open log; a checkpoint appends its record and
-- flushes.
pub data LogCall : Type 0 where
  call_begin call_commit call_abort : ℕ → LogCall
  call_insert call_delete : ℕ → Bytes → Rid → Bytes → LogCall
  call_append : LogRecord → LogCall
  call_flush : LogCall

unfoldable pub run_call : LogCall → LogManager → LogManager
run_call (call_begin t) lm = (log_begin t lm).1
run_call (call_commit t) lm = (log_commit t lm).1
run_call (call_abort t) lm = (log_abort t lm).1
run_call (call_insert t table rid bytes) lm = (log_insert t table rid bytes lm).1
run_call (call_delete t table rid bytes) lm = (log_delete t table rid bytes lm).1
run_call (call_append r) lm = (append_log r lm).1
run_call call_flush lm = flush_log lm

unfoldable pub run_calls : List LogCall → LogManager → LogManager
run_calls [] lm = lm
run_calls (c ∷ cs) lm = run_calls cs (run_call c lm)

-- The records that a call appends.
abbrev pub call_records : LogCall → List LogRecord
call_records (call_begin t) = blank begin_txn t ∷ []
call_records (call_commit t) = blank commit_txn t ∷ []
call_records (call_abort t) = blank abort_txn t ∷ []
call_records (call_insert t table rid bytes) = insert_record t table rid bytes ∷ []
call_records (call_delete t table rid bytes) = delete_record t table rid bytes ∷ []
call_records (call_append r) = r ∷ []
call_records call_flush = []

-- The abstract log: the next number, the durable records and the pending ones. A call appends its
-- record, and a commit or a flush makes everything durable.
pub record AbstractLog : Type 0 where
  pub next : ℕ
  pub durable : List LogRecord
  pub pending : List LogRecord

unfoldable pub append_abstract : LogRecord → AbstractLog → AbstractLog
append_abstract r a = record {
  next = (a.next + 1) % 2 ^ 64;
  durable = a.durable;
  pending = a.pending ++ numbered a.next r ∷ [];
}

abbrev pub flush_abstract : AbstractLog → AbstractLog
flush_abstract a = record a { durable = a.durable ++ a.pending; pending = [] }

unfoldable pub call_abstract : LogCall → AbstractLog → AbstractLog
unfolding append_abstract
call_abstract (call_begin t) a = append_abstract (blank begin_txn t) a
call_abstract (call_commit t) a = flush_abstract (append_abstract (blank commit_txn t) a)
call_abstract (call_abort t) a = append_abstract (blank abort_txn t) a
call_abstract (call_insert t table rid bytes) a =
    append_abstract (insert_record t table rid bytes) a
call_abstract (call_delete t table rid bytes) a =
    append_abstract (delete_record t table rid bytes) a
call_abstract (call_append r) a = append_abstract r a
call_abstract call_flush a = flush_abstract a

unfoldable pub calls_abstract : List LogCall → AbstractLog → AbstractLog
calls_abstract [] a = a
calls_abstract (c ∷ cs) a = calls_abstract cs (call_abstract c a)

pub record Refines (lm : LogManager) (a : AbstractLog) : Type 0 where
  pub next : lm.next_lsn ≡ a.next
  pub holds : Holds lm a.durable a.pending

append-Refines :
    (r : LogRecord) {lm : LogManager} {a : AbstractLog}
    → IsStorable r
    → Refines lm a
    → Refines (append_log r lm).1 (append_abstract r a)
unfolding append_abstract
append-Refines r {lm} {a} s h = record {
  next = unfold append_log in rw h.next;
  holds = rw (← h.next) (append_log-Holds h.holds r s);
}

flush-Refines :
    {lm : LogManager} {a : AbstractLog} → Refines lm a → Refines (flush_log lm) (flush_abstract a)
flush-Refines {lm} {a} h = record {
  next = unfold flush_log in rw h.holds.opened h.next;
  holds = flush_log-Holds h.holds;
}

call-Refines :
    (c : LogCall) {lm : LogManager} {a : AbstractLog}
    → All IsStorable (call_records c)
    → Refines lm a
    → Refines (run_call c lm) (call_abstract c a)
unfolding run_call call_abstract log_begin log_commit log_abort log_insert log_delete
call-Refines (call_commit t) s h = flush-Refines (append-Refines (blank commit_txn t) s.0 h)
call-Refines (call_begin t) s h = append-Refines (blank begin_txn t) s.0 h
call-Refines (call_abort t) s h = append-Refines (blank abort_txn t) s.0 h
call-Refines (call_insert t table rid bytes) s h =
    append-Refines (insert_record t table rid bytes) s.0 h
call-Refines (call_delete t table rid bytes) s h =
    append-Refines (delete_record t table rid bytes) s.0 h
call-Refines (call_append r) s h = append-Refines r s.0 h
call-Refines call_flush s h = flush-Refines h

calls-Refines :
    (cs : List LogCall) {lm : LogManager} {a : AbstractLog}
    → All (λ c. All IsStorable (call_records c)) cs
    → Refines lm a
    → Refines (run_calls cs lm) (calls_abstract cs a)
unfolding run_calls calls_abstract
calls-Refines [] s h = h
calls-Refines (c ∷ cs) s h = calls-Refines cs s.1 (call-Refines c s.0 h)

-- From an open log whose file and buffer are the abstract log's whole records, with no torn end,
-- after any calls whose records fit their fields: a crash at any byte of the stream's buffer leaves a
-- file that is read as all the durable records of the abstract log and some first part of its pending
-- ones.
pub crash-run_calls :
    (cs : List LogCall) (lm : LogManager) (a : AbstractLog) (k : ℕ)
    → All (λ c. All IsStorable (call_records c)) cs
    → Refines lm a
    → (n : ℕ) × (read_all_records (crash k (run_calls cs lm))
        ≡ some ((calls_abstract cs a).durable ++ take n (calls_abstract cs a).pending))
crash-run_calls cs lm a k s h =
    crash-Holds k (run_calls cs lm) (calls_abstract cs a).durable (calls_abstract cs a).pending
      (calls-Refines cs s h).holds
