-- ===== src/Tests/Transactions.antt =====
-- A concrete transaction over a log of one block with one record.
use myc_db.Prelude.{
  ◌<◌, true, ℕ, ◌≡◌, refl, inl, inr, true, false, List, [], ◌∷◌, arith, replicate, get_elem?,
  if◌then◌else◌, some, ℤ, pos, negsuc, ◌+ℤ◌, ok, text, same_text,
}
use myc_db.File.Page.{Page, get_int, get_bytes, set_int}
use myc_db.File.Block.{BlockId, same_block}
use myc_db.Log.Manager.{LogStore}
use myc_db.Log.Invariant.{IsLog}
use myc_db.Log.Extend.{Extends}
use myc_db.Buffer.{Buffer, make_buffer, is_pinned, unpin_buffer, pin_buffer}
use myc_db.Buffer.Manager.{pin, holds_block}
use myc_db.Tx.LogOps.{LogOperation, operation_of}
use myc_db.Tx.Recovery.{
  checkpoint_record, start_record, commit_record, set_int_record, operation, create_log_record,
  fill_update,
}
use myc_db.Tx.Recovery.Fields.{IsWritable}
use myc_db.Tx.Recovery.Written.{create_log_record-fill_set_int}
use myc_db.Tx.Recovery.Stored.{write_to_log, write_to_log-IsLog}
use myc_db.Tx.BufferList.{BufferList, list_pin, list_unpin}
use myc_db.Tx.BufferList.Copies.{list_unpin-list_pin}
use myc_db.Tx.Transaction.{
  Transaction, Others, tx_set_int, tx_set_str, tx_append, do_rollback, do_recover, is_checkpoint,
  is_finish,
}
use myc_db.Tx.Transaction.Updates.{Hangs, tx_writes_deadlock}
use myc_db.Tx.Transaction.Reading.{OnlyReads, with_log}
use myc_db.Tx.Transaction.Rollback.{do_rollback-IsOthers, do_rollback-write_to_log}
use myc_db.Tx.Transaction.Recover.{do_recover-IsSettled}
use myc_db.Tests.Logs.{store, log-Holds}

abbrev pub file_of_words : BlockId
file_of_words = record { filename = text "data"; blk_num = pos 3 }

file_of_words-IsWritable : IsWritable (pos 7) file_of_words (pos 8) 32
file_of_words-IsWritable = record {
  tx_range = (omega arith, omega arith);
  block_range = (omega arith, omega arith);
  offset_range = (omega arith, omega arith);
  words = refl;
  room = omega arith;
  small = omega arith;
}

create_log_record-fill_set_int_example :
    (p : Page) × (fill_update set_int LogOperation.set_int
        (pos 7)
        file_of_words
        (pos 8)
        (negsuc 4)
        (pos 16)
        (replicate 32 0)
      ≡ ok p)
    × (create_log_record p.buffer
        ≡ ok (some (set_int_record (pos 7) file_of_words (pos 8) (negsuc 4))))
create_log_record-fill_set_int_example =
    create_log_record-fill_set_int (pos 7) file_of_words (pos 8) (negsuc 4) (replicate 32 0)
      file_of_words-IsWritable (omega arith, omega arith)

-- One block with the record of the kind `op`, of transaction 7.
abbrev pub mark_bytes : ℕ → List ℕ
mark_bytes op = op ∷ 0 ∷ 0 ∷ 0 ∷ 7 ∷ 0 ∷ 0 ∷ 0 ∷ []

abbrev pub marked : ℕ → LogStore
marked op = store (record { buffer = 4 ∷ 0 ∷ 0 ∷ 0 ∷ 8 ∷ 0 ∷ 0 ∷ 0 ∷ mark_bytes op })

marked-IsLog : (op : ℕ) → IsLog (marked op) 16 0 [] (mark_bytes op ∷ [])
unfolding get_int get_bytes
marked-IsLog op = record {
  width = refl;
  words = refl;
  bytes = replicate 16 0;
  file = log-Holds;
  whole = refl;
  range = omega arith;
  here = refl;
  size = refl;
  page = record { start = 4; top = refl; low = omega arith; stored = (refl, refl, refl) };
  older = refl;
}

abbrev pub transaction : ℕ → ℤ → Transaction
transaction op n = record {
  list = record {
    bm = record { log = marked op; pool = []; num_available = pos 0 };
    buffers = [];
    pins = [];
  };
  cm = record { table = []; locks = []; mtx_held = false };
  tx_num = n;
}

abbrev pub nobody : Others
nobody = record { pool_waits = λ m. []; s_waits = λ t. []; x_waits = λ t. [] }

tx_writes_deadlock_example :
    Hangs
      (transaction 1 (pos 7))
      (tx_set_int nobody file_of_words (pos 8) (pos 1) true (transaction 1 (pos 7)))
    × Hangs
        (transaction 1 (pos 7))
        (tx_set_str nobody file_of_words (pos 8) (text "a") true (transaction 1 (pos 7)))
    × Hangs (transaction 1 (pos 7)) (tx_append nobody (text "data") (transaction 1 (pos 7)))
tx_writes_deadlock_example =
    tx_writes_deadlock nobody (transaction 1 (pos 7)) file_of_words (pos 8) (pos 1) (text "a")
      (text "data") true

-- The log of a transaction that has started, and nothing else.
start_read : create_log_record (mark_bytes 1) ≡ ok (some (start_record (pos 7)))
unfolding create_log_record get_int operation_of
start_read = refl

do_rollback-IsOthers_example :
    OnlyReads (transaction 1 (pos 7)) (do_rollback nobody 2 (transaction 1 (pos 7)))
do_rollback-IsOthers_example =
    do_rollback-IsOthers nobody (transaction 1 (pos 7)) 16 0 [] (mark_bytes 1 ∷ []) (marked-IsLog 1)
      (start_record (pos 7), start_read, inr (refl, refl))

commit_read : create_log_record (mark_bytes 2) ≡ ok (some (commit_record (pos 7)))
unfolding create_log_record get_int operation_of
commit_read = refl

do_recover-IsSettled_example :
    OnlyReads (transaction 2 (pos 9)) (do_recover nobody 2 (transaction 2 (pos 9)))
unfolding is_checkpoint is_finish operation
do_recover-IsSettled_example =
    do_recover-IsSettled nobody (transaction 2 (pos 9)) 16 0 [] (mark_bytes 2 ∷ []) (marked-IsLog 2)
      (commit_record (pos 7), commit_read, inr (refl, inl (refl, tt)))

blank_read : create_log_record (mark_bytes 0) ≡ ok (some checkpoint_record)
unfolding create_log_record get_int operation_of
blank_read = refl

write_to_log-IsLog_example :
    (bytes : List ℕ) × Extends
      (marked 0)
      16
      (mark_bytes 0 ∷ [])
      bytes
      (write_to_log (start_record (pos 8)) (marked 0))
    × (create_log_record bytes ≡ ok (some checkpoint_record))
write_to_log-IsLog_example =
    write_to_log-IsLog (start_record (pos 8)) (marked 0) 16 0 [] (mark_bytes 0 ∷ [])
      (marked-IsLog 0) (omega arith, omega arith) refl (omega arith) (omega arith)

abbrev after_write : Transaction
after_write = with_log (transaction 0 (pos 8)) (write_to_log (start_record (pos 8)) (marked 0)).1

do_rollback-write_to_log_example : OnlyReads after_write (do_rollback nobody 3 after_write)
do_rollback-write_to_log_example =
    do_rollback-write_to_log nobody (transaction 0 (pos 8)) (start_record (pos 8)) 16 0 []
      (mark_bytes 0 ∷ []) (marked-IsLog 0) (blank_read, tt) (omega arith, omega arith) refl
      (omega arith) (omega arith) refl

abbrev odd_file : BlockId
odd_file = record { filename = text "t.tbl"; blk_num = pos 0 }

-- A pool of one buffer, which has the block already.
abbrev held : Buffer
held = record (make_buffer (record { buffer = replicate 16 0 })) { block = some file_of_words }

abbrev nothing_pinned : BufferList
nothing_pinned = record {
  bm = record { log = marked 0; pool = held ∷ []; num_available = pos 1 };
  buffers = [];
  pins = [];
}

abbrev held_once : Buffer
held_once = record held { pins = 1 }

abbrev one_pinned : BufferList
one_pinned = record {
  bm = record { log = marked 0; pool = held_once ∷ []; num_available = pos 0 };
  buffers = (file_of_words, held_once) ∷ [];
  pins = file_of_words ∷ [];
}

pinned_once : list_pin [] file_of_words nothing_pinned ≡ (ok tt, one_pinned)
unfolding list_pin pin same_block same_text is_pinned pin_buffer
pinned_once = refl

list_unpin-list_pin_example :
    (i : ℕ) × (b : Buffer) × (get_elem? one_pinned.bm.pool i ≡ some b)
    × (holds_block file_of_words b ≡ true)
    × (0 < b.pins)
    × (get_elem? (list_unpin file_of_words one_pinned).bm.pool i ≡ some b)
    × ((list_unpin file_of_words one_pinned).bm.num_available
        ≡ (if is_pinned (unpin_buffer b) then pos 0 else pos 0 +ℤ pos 1))
list_unpin-list_pin_example =
    list_unpin-list_pin [] file_of_words nothing_pinned one_pinned pinned_once
