-- ===== src/Tx/Recovery/Stored.antt =====
-- What goes to the log: `write_to_log` fills a copy, and appends the vector of zeros.
use myc_db.Prelude.{
  ℕ, ◌+◌, ◌*◌, ◌%◌, ◌^◌, ◌≤◌, ◌<◌, ◌≡◌, ◌≢◌, refl, List, ◌++◌, arith, zero, suc, length, replicate,
  length-replicate, InInt, ℤ, pos, ok, err, unaligned, some, Text, Op, size_mod, size_of,
}
use myc_db.File.Page.{Page, get_int, set_int, add_int, to_int, max_len, int_size, decode_int}
use myc_db.File.Page.Below.{set_int-there, set_string-there}
use myc_db.File.Block.{BlockId}
use myc_db.Log.Manager.{LogStore, append}
use myc_db.Log.Invariant.{IsLog}
use myc_db.Log.Extend.{Extends, append-IsLog}
use myc_db.Tx.LogOps.{LogOperation, log_operation_to_int, operation_of}
use myc_db.Tx.Recovery.{
  LogRecord, checkpoint_record, start_record, commit_record, rollback_record, set_int_record,
  set_str_record, create_log_record, make_rec, fill_update, fill_mark, log_set_int, log_set_str,
  log_mark, log_start, log_commit, log_rollback, log_checkpoint,
}
use myc_db.Tx.Recovery.Fields.{block_pos_lem, next_words, to_int_small, IsWritable}
use myc_db.Tx.Recovery.Written.{create_log_record-fill_set_int, create_log_record-fill_set_str}

-- `write_to_log` of each kind of record.
abbrev pub write_to_log : LogRecord → Op LogStore ℤ
write_to_log checkpoint_record = log_checkpoint
write_to_log (start_record tx) = log_start tx
write_to_log (commit_record tx) = log_commit tx
write_to_log (rollback_record tx) = log_rollback tx
write_to_log (set_int_record tx blk offset v) = log_set_int tx blk offset v
write_to_log (set_str_record tx blk offset v) = log_set_str tx blk offset v

-- The bytes that a record takes.
abbrev pub record_size : LogRecord → ℕ
record_size checkpoint_record = 4
record_size (start_record tx) = 8
record_size (commit_record tx) = 8
record_size (rollback_record tx) = 8
record_size (set_int_record tx blk offset v) = length blk.filename + 24
record_size (set_str_record tx blk offset v) = length blk.filename + 24 + length v

-- The numbers of a record are of type `int`, and a file name is made of whole words.
abbrev pub IsWellSized : LogRecord → Type 0
IsWellSized checkpoint_record = Unit {0}
IsWellSized (start_record tx) = InInt tx
IsWellSized (commit_record tx) = InInt tx
IsWellSized (rollback_record tx) = InInt tx
IsWellSized (set_int_record tx blk offset v) =
    InInt tx × InInt blk.blk_num × InInt offset × InInt v × (length blk.filename % 4 ≡ 0)
IsWellSized (set_str_record tx blk offset v) =
    InInt tx × InInt blk.blk_num × InInt offset × (length blk.filename % 4 ≡ 0)

zeros_record :
    (n : ℕ) → 4 ≤ n → n < 2 ^ 31 → create_log_record (replicate n 0) ≡ ok (some checkpoint_record)
unfolding create_log_record get_int operation_of decode_int
zeros_record zero h l = absurd (omega arith)
zeros_record (suc zero) h l = absurd (omega arith)
zeros_record (suc (suc zero)) h l = absurd (omega arith)
zeros_record (suc (suc (suc zero))) h l = absurd (omega arith)
zeros_record (suc (suc (suc (suc n)))) h l = ground arith

log_mark-appends :
    (op : LogOperation) (tx : ℤ) (s : LogStore) → log_mark op tx s ≡ append (replicate 8 0) s
unfolding log_mark fill_mark set_int
log_mark-appends op tx s = refl

make_rec_small : (n : ℕ) → n < 2 ^ 31 → make_rec n ≡ ok (replicate n 0)
unfolding make_rec
make_rec_small n h = ground arith

blank-IsWritable :
    (tx : ℤ) (blk : BlockId) (offset : ℤ) (n : ℕ)
    → InInt tx
    → InInt blk.blk_num
    → InInt offset
    → length blk.filename % 4 ≡ 0
    → length blk.filename + 24 ≤ n
    → n < 2 ^ 31
    → IsWritable tx blk offset (length (replicate {A = ℕ} n 0))
blank-IsWritable tx blk offset n a b c e l h = record {
  tx_range = a;
  block_range = b;
  offset_range = c;
  words = e;
  room = omega (arith, length-replicate {A = ℕ} n 0);
  small = omega (arith, length-replicate {A = ℕ} n 0);
}

set_int_unaligned : (p : Page) (n : ℕ) (num : ℤ) → n % 4 ≢ 0 → set_int p (pos n) num ≡ err unaligned
unfolding set_int
set_int_unaligned p n num h = ground arith

log_set_int-appends :
    (tx : ℤ) (blk : BlockId) (offset v : ℤ) (s : LogStore)
    → IsWellSized (set_int_record tx blk offset v)
    → length blk.filename + 24 < 2 ^ 31
    → log_set_int tx blk offset v s ≡ append (replicate (length blk.filename + 24) 0) s
unfolding log_set_int
log_set_int-appends tx blk offset v s (a, b, c, d, e) h =
    let n = length blk.filename in
    let (to_offset, to_value) = next_words n (omega arith) in
    let (p, filled, back) =
      create_log_record-fill_set_int tx blk offset v (replicate (n + 24) 0)
        (blank-IsWritable tx blk offset (n + 24) a b c e (omega arith) h) d in
    let size : (size_of (pos (20 + n)) + int_size) % size_mod ≡ n + 24 = omega arith in
    rw
      (
        block_pos_lem blk.filename (omega arith),
        to_offset,
        to_value,
        size,
        make_rec_small (n + 24) h,
        filled,
      )
      refl

text_end :
    (n k : ℕ)
    → n + 24 + k < 2 ^ 31
    → add_int (pos (20 + n)) (max_len (to_int k)) ≡ ok (pos (n + 24 + k))
unfolding add_int
text_end n k h = rw (to_int_small k (omega arith)) (ground arith)

log_set_str-appends :
    (tx : ℤ) (blk : BlockId) (offset : ℤ) (v : Text) (s : LogStore)
    → IsWellSized (set_str_record tx blk offset v)
    → length blk.filename + 24 + length v < 2 ^ 31
    → log_set_str tx blk offset v s ≡ append (replicate (length blk.filename + 24 + length v) 0) s
unfolding log_set_str
log_set_str-appends tx blk offset v s (a, b, c, e) h =
    let n = length blk.filename in
    let m = n + 24 + length v in
    let (to_offset, to_value) = next_words n (omega arith) in
    let w = blank-IsWritable tx blk offset m a b c e (omega arith) h in
    let (p, filled, back) =
      create_log_record-fill_set_str tx blk offset v (replicate m 0) w
        (omega (arith, length-replicate {A = ℕ} m 0)) in
    rw
      (
        block_pos_lem blk.filename (omega arith),
        to_offset,
        to_value,
        text_end n (length v) (omega arith),
        make_rec_small m h,
        filled,
      )
      refl

-- What goes to the log, whatever the record.
write_to_log-appends :
    (r : LogRecord) (s : LogStore)
    → IsWellSized r
    → record_size r < 2 ^ 31
    → write_to_log r s ≡ append (replicate (record_size r) 0) s
unfolding log_checkpoint set_int
write_to_log-appends checkpoint_record s w h = refl
write_to_log-appends (start_record tx) s w h = log_mark-appends LogOperation.start tx s
write_to_log-appends (commit_record tx) s w h = log_mark-appends LogOperation.commit tx s
write_to_log-appends (rollback_record tx) s w h = log_mark-appends LogOperation.rollback tx s
write_to_log-appends (set_int_record tx blk offset v) s w h =
    log_set_int-appends tx blk offset v s w h
write_to_log-appends (set_str_record tx blk offset v) s w h =
    log_set_str-appends tx blk offset v s w h

four_bytes : (r : LogRecord) → 4 ≤ record_size r
four_bytes checkpoint_record = omega arith
four_bytes (start_record tx) = omega arith
four_bytes (commit_record tx) = omega arith
four_bytes (rollback_record tx) = omega arith
four_bytes (set_int_record tx blk offset v) = omega arith
four_bytes (set_str_record tx blk offset v) = omega arith

-- write_to_log of any record of int numbers and whole words that fits in a block, to a well-
-- formed log below 2 ^ 31 bytes, gives the next LSN and keeps the log well-formed with one record
-- more, but that record reads back as a checkpoint.
pub write_to_log-IsLog :
    (r : LogRecord) (s : LogStore) (b k : ℕ) (old cur : List (List ℕ))
    → IsLog s b k old cur
    → IsWellSized r
    → record_size r % 4 ≡ 0
    → 8 + record_size r ≤ b
    → suc (suc k) * b < 2 ^ 31
    → (bytes : List ℕ) × Extends s b (cur ++ old) bytes (write_to_log r s)
      × (create_log_record bytes ≡ ok (some checkpoint_record))
write_to_log-IsLog r s b k old cur l w words room range =
    let n = record_size r in
    let small : n < 2 ^ 31 = omega arith in
    let len = length-replicate {A = ℕ} n 0 in
    (
      replicate n 0,
      rw (write_to_log-appends r s w small) (
          append-IsLog s b k old cur (replicate n 0) l (omega (arith, len)) (omega (arith, len))
            range),
      zeros_record n (four_bytes r) small,
    )

-- When the file name is not made of whole words (and is below 2 ^ 31 bytes with the rest of the
-- record), set_int_record::write_to_log throws and leaves the log as it was: the number of the
-- block would stand between two words.
pub log_set_int_unaligned :
    (tx : ℤ) (blk : BlockId) (offset v : ℤ) (s : LogStore)
    → InInt tx
    → length blk.filename % 4 ≢ 0
    → length blk.filename + 24 < 2 ^ 31
    → log_set_int tx blk offset v s ≡ (err unaligned, s)
unfolding log_set_int fill_update log_operation_to_int
log_set_int_unaligned tx blk offset v s a e h =
    let n = length blk.filename in
    let (to_offset, to_value) = next_words n (omega arith) in
    let z : Page = record { buffer = replicate (n + 24) 0 } in
    let len = length-replicate {A = ℕ} (n + 24) 0 in
    let (p, ep, bp, vp) =
      set_int-there z 0 (pos 4) (omega arith, omega arith) refl (omega (arith, len))
        (omega (arith, len)) in
    let (q, eq, bq, vq) =
      set_int-there p 4 tx a refl (omega (arith, len, bp.size)) (omega (arith, len, bp.size)) in
    let (r, er, br, vr) =
      set_string-there q 8 blk.filename refl (omega (arith, len, bp.size, bq.size))
        (omega (arith, len, bp.size, bq.size)) in
    let size : (size_of (pos (20 + n)) + int_size) % size_mod ≡ n + 24 = omega arith in
    rw
      (
        block_pos_lem blk.filename (omega arith),
        to_offset,
        to_value,
        size,
        make_rec_small (n + 24) h,
        ep,
        eq,
        er,
        set_int_unaligned r (12 + n) blk.blk_num (omega arith),
      )
      refl
