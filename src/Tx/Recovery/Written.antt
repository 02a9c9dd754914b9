-- ===== src/Tx/Recovery/Written.antt =====
-- What the pages that `write_to_log` fills would read back as.
use myc_db.Prelude.{
  ℕ, ◌+◌, ◌^◌, ◌≤◌, ◌<◌, ◌≡◌, refl, ◌∙◌, List, arith, length, InInt, ℤ, pos, ok, some, Text,
}
use myc_db.File.Page.{Page, get_int, set_int, set_string}
use myc_db.File.Page.Below.{set_int-there, get_string-HasText, set_string-there}
use myc_db.File.Block.{BlockId}
use myc_db.Tx.LogOps.{LogOperation, log_operation_to_int, operation_of}
use myc_db.Tx.Recovery.{set_int_record, read_update, create_log_record, fill_update}
use myc_db.Tx.Recovery.Fields.{
  block_pos_lem, next_words, IsWritable, HasFields, HasFields-Below, fill_update-HasFields,
}

create_log_record-HasFields :
    (p : Page) (tx : ℤ) (blk : BlockId) (offset w : ℤ)
    → HasFields p (pos 4) tx blk offset
    → get_int p (pos (20 + length blk.filename)) ≡ ok w
    → length blk.filename + 24 ≤ length p.buffer
    → length p.buffer < 2 ^ 31
    → create_log_record p.buffer ≡ ok (some (set_int_record tx blk offset w))
unfolding create_log_record read_update operation_of
create_log_record-HasFields p tx blk offset w h e l s =
    let n = length blk.filename in
    let (to_offset, to_value) = next_words n (omega (arith, l, s)) in
    let text = get_string-HasText p 8 blk.filename s (omega (arith, l)) h.file_text in
    rw
      (
        h.op_word,
        h.tx_word,
        text,
        block_pos_lem blk.filename (omega (arith, l, s)),
        h.block_word,
        to_offset,
        h.offset_word,
        to_value,
        e,
      )
      refl

-- The page that set_int_record::write_to_log fills reads back as the record with the same
-- transaction, block, offset and value, if these are of type int, the file name is made of whole
-- words, and all fit on the page, which is below 2 ^ 31 bytes.
pub create_log_record-fill_set_int :
    (tx : ℤ) (blk : BlockId) (offset v : ℤ) (rec : List ℕ)
    → IsWritable tx blk offset (length rec)
    → InInt v
    → (p : Page) × (fill_update set_int LogOperation.set_int tx blk offset v
          (pos (12 + length blk.filename))
          rec
        ≡ ok p)
      × (create_log_record p.buffer ≡ ok (some (set_int_record tx blk offset v)))
unfolding log_operation_to_int
create_log_record-fill_set_int tx blk offset v rec w k =
    let n = length blk.filename in
    let (e, filled, se, fields) =
      fill_update-HasFields set_int LogOperation.set_int tx blk offset v rec w in
    let (p, ep, bp, vp) =
      set_int-there e (20 + n) v k (omega (arith, w.words)) (omega (arith, w.room, se))
        (omega (arith, w.small, se)) in
    (
      p,
      filled ∙ ep,
      create_log_record-HasFields p tx blk offset v
          (HasFields-Below e p (pos 4) tx blk offset bp fields) vp
          (omega (arith, w.room, se, bp.size)) (omega (arith, w.small, se, bp.size)),
    )

-- The page that set_str_record::write_to_log fills would read back as a record of an int, the
-- length of the text, where the other numbers are of type int, the file name is made of whole
-- words, and all fit on the page, which is below 2 ^ 31 bytes: log_operation_to_int gives both
-- kinds of records the same number.
pub create_log_record-fill_set_str :
    (tx : ℤ) (blk : BlockId) (offset : ℤ) (v : Text) (rec : List ℕ)
    → IsWritable tx blk offset (length rec)
    → length blk.filename + 24 + length v ≤ length rec
    → (p : Page) × (fill_update set_string LogOperation.set_str tx blk offset v
          (pos (12 + length blk.filename))
          rec
        ≡ ok p)
      × (create_log_record p.buffer ≡ ok (some (set_int_record tx blk offset (pos (length v)))))
unfolding log_operation_to_int
create_log_record-fill_set_str tx blk offset v rec w l =
    let n = length blk.filename in
    let (e, filled, se, fields) =
      fill_update-HasFields set_string LogOperation.set_str tx blk offset v rec w in
    let (p, ep, bp, vp) =
      set_string-there e (20 + n) v (omega (arith, w.words)) (omega (arith, l, se))
        (omega (arith, w.small, se)) in
    (
      p,
      filled ∙ ep,
      create_log_record-HasFields p tx blk offset (pos (length v))
          (HasFields-Below e p (pos 4) tx blk offset bp fields) vp.head
          (omega (arith, w.room, se, bp.size)) (omega (arith, w.small, se, bp.size)),
    )
