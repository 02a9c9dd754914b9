-- ===== src/Tx/Recovery.antt =====
-- The records of the log: src/libs/dbcore/tx/recovery. A record is read from a page of its bytes; it is
-- written on a page that is a copy of the vector which then goes to the log.
pub mod Fields
pub mod Written
pub mod Stored
use myc_db.Prelude.{
  ℕ, ◌+◌, ◌%◌, ◌^◌, List, [], ◌∷◌, Option, none, some, if◌then◌else◌, length, replicate, ltb, ℤ,
  pos, negsuc, size_mod, size_of, runtime, Result, ok, err, ◌>>=◌, ◌>>◌, Op, lift, bind, Text,
}
use myc_db.File.Page.{
  Page, get_int, set_int, get_string, set_string, add_int, to_int, max_len, int_size,
}
use myc_db.File.Block.{BlockId}
use myc_db.Log.Manager.{LogStore, append}
use myc_db.Tx.LogOps.{LogOperation, log_operation_to_int, operation_of}

-- The records, with the transaction that wrote them, the block, the offset and the value.
pub data LogRecord : Type 0 where
  checkpoint_record : LogRecord
  start_record commit_record rollback_record : ℤ → LogRecord
  set_int_record : ℤ → BlockId → ℤ → ℤ → LogRecord
  set_str_record : ℤ → BlockId → ℤ → Text → LogRecord

unfoldable pub operation : LogRecord → LogOperation
operation checkpoint_record = LogOperation.checkpoint
operation (start_record tx) = LogOperation.start
operation (commit_record tx) = LogOperation.commit
operation (rollback_record tx) = LogOperation.rollback
operation (set_int_record tx blk offset v) = LogOperation.set_int
operation (set_str_record tx blk offset v) = LogOperation.set_str

unfoldable pub record_tx_num : LogRecord → ℤ
record_tx_num checkpoint_record = negsuc 0
record_tx_num (start_record tx) = tx
record_tx_num (commit_record tx) = tx
record_tx_num (rollback_record tx) = tx
record_tx_num (set_int_record tx blk offset v) = tx
record_tx_num (set_str_record tx blk offset v) = tx

-- `at + sizeof(int)`, back in an `int`.
abbrev pub next_word : ℤ → ℤ
next_word z = to_int (size_of z + int_size)

-- `tpos`, `fpos` and `bpos`.
abbrev pub tx_pos : ℤ
tx_pos = pos int_size

abbrev pub file_pos : ℤ
file_pos = next_word tx_pos

unfoldable pub block_pos : Text → Result ℤ
block_pos filename = add_int file_pos (max_len (to_int (length filename)))

abbrev pub offset_pos : ℤ → ℤ
offset_pos bpos = next_word bpos

abbrev pub value_pos : ℤ → ℤ
value_pos bpos = next_word (offset_pos bpos)

-- What the constructors of the two update records read alike.
unfoldable pub read_update :
    {A : Type 0}
    → Page
    → (Page → ℤ → Result A)
    → (ℤ → BlockId → ℤ → A → LogRecord)
    → Result LogRecord
unfolding block_pos
read_update p get_value make = do
  tx ← get_int p tx_pos
  filename ← get_string p file_pos
  bpos ← block_pos filename
  blknum ← get_int p bpos
  offset ← get_int p (offset_pos bpos)
  v ← get_value p (value_pos bpos)
  ok (make tx (record { filename = filename; blk_num = blknum }) offset v)

unfoldable pub read_mark : Page → (ℤ → LogRecord) → Result LogRecord
read_mark p make = do tx ← get_int p tx_pos; ok (make tx)

-- The constructors that read a page.
abbrev pub read_start : Page → Result LogRecord
read_start p = read_mark p start_record

abbrev pub read_commit : Page → Result LogRecord
read_commit p = read_mark p commit_record

abbrev pub read_rollback : Page → Result LogRecord
read_rollback p = read_mark p rollback_record

abbrev pub read_set_int : Page → Result LogRecord
read_set_int p = read_update p get_int set_int_record

abbrev pub read_set_str : Page → Result LogRecord
read_set_str p = read_update p get_string set_str_record

-- `create_log_record`; `none` is a null pointer.
unfoldable pub create_log_record : List ℕ → Result (Option LogRecord)
unfolding operation_of read_mark read_update
create_log_record bytes = create (record { buffer = bytes })
  where
    made : Result LogRecord → Result (Option LogRecord)
    made r = r >>= λ x. ok (some x)

    create : Page → Result (Option LogRecord)
    create p = do
      z ← get_int p (pos 0)
      elim (operation_of z) [
        | none ↦ ok none
        | some LogOperation.checkpoint ↦ ok (some checkpoint_record)
        | some LogOperation.start ↦ made (read_start p)
        | some LogOperation.commit ↦ made (read_commit p)
        | some LogOperation.rollback ↦ made (read_rollback p)
        | some LogOperation.set_int ↦ made (read_set_int p)
        | some LogOperation.set_str ↦ made (read_set_str p)
      ]

-- `std::vector<char> rec(n)`: zeros, or the exception of a size that no vector has.
unfoldable pub make_rec : ℕ → Result (List ℕ)
make_rec n = if ltb n (2 ^ 63) then ok (replicate n 0) else err runtime

-- What `write_to_log` of an update record writes on its page.
unfoldable pub fill_update :
    {A : Type 0}
    → (Page → ℤ → A → Result Page)
    → LogOperation
    → ℤ
    → BlockId
    → ℤ
    → A
    → ℤ
    → List ℕ
    → Result Page
unfolding log_operation_to_int
fill_update put_value op tx blk offset v bpos rec = do
  a ← set_int (record { buffer = rec }) (pos 0) (log_operation_to_int op)
  b ← set_int a tx_pos tx
  c ← set_string b file_pos blk.filename
  d ← set_int c bpos blk.blk_num
  e ← set_int d (offset_pos bpos) offset
  put_value e (value_pos bpos) v

-- `set_int_record::write_to_log`.
unfoldable pub log_set_int : ℤ → BlockId → ℤ → ℤ → Op LogStore ℤ
unfolding block_pos make_rec
log_set_int tx blk offset v = bind (lift (block_pos blk.filename)) λ bpos.
    bind (lift (make_rec ((size_of (value_pos bpos) + int_size) % size_mod))) λ rec.
      bind (lift (fill_update set_int LogOperation.set_int tx blk offset v bpos rec))
        λ p. append rec

-- `set_str_record::write_to_log`.
unfoldable pub log_set_str : ℤ → BlockId → ℤ → Text → Op LogStore ℤ
unfolding block_pos make_rec
log_set_str tx blk offset v = bind (lift (block_pos blk.filename)) λ bpos.
    bind (lift (add_int (value_pos bpos) (max_len (to_int (length v))))) λ rec_len.
      bind (lift (make_rec (size_of rec_len))) λ rec.
        bind (lift (fill_update set_string LogOperation.set_str tx blk offset v bpos rec))
          λ p. append rec

-- `write_to_log` of the start, commit and rollback records.
unfoldable pub fill_mark : LogOperation → ℤ → List ℕ → Result Page
unfolding log_operation_to_int
fill_mark op tx rec = do
  p ← set_int (record { buffer = rec }) (pos 0) (log_operation_to_int op)
  set_int p (pos int_size) tx

unfoldable pub log_mark : LogOperation → ℤ → Op LogStore ℤ
unfolding fill_mark
log_mark op tx =
    let rec = replicate (int_size + int_size) 0 in bind (lift (fill_mark op tx rec)) λ p. append rec

abbrev pub log_start : ℤ → Op LogStore ℤ
log_start tx = log_mark LogOperation.start tx

abbrev pub log_commit : ℤ → Op LogStore ℤ
log_commit tx = log_mark LogOperation.commit tx

abbrev pub log_rollback : ℤ → Op LogStore ℤ
log_rollback tx = log_mark LogOperation.rollback tx

-- `checkpoint_record::write_to_log`.
unfoldable pub log_checkpoint : Op LogStore ℤ
unfolding log_operation_to_int
log_checkpoint =
    let rec = replicate int_size 0 in
    bind
      (lift
        (set_int (record { buffer = rec }) (pos 0) (log_operation_to_int LogOperation.checkpoint)))
      λ p. append rec
