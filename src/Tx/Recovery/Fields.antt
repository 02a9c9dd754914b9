-- ===== src/Tx/Recovery/Fields.antt =====
-- The fields of an update record on the page that `write_to_log` fills.
use myc_db.Prelude.{
  ℕ, ◌+◌, ◌%◌, ◌^◌, ◌≤◌, ◌<◌, ◌≡◌, refl, ◌∙◌, List, arith, length, InInt, ℤ, pos, Result, ok, Text,
}
use myc_db.File.Page.{Page, get_int, set_int, set_string, to_int, add_int}
use myc_db.File.Page.Below.{
  Below, Below-trans, set_int-there, get_int-Below, word_kept, size_kept, HasText, HasText-Below,
  set_string-there,
}
use myc_db.File.Block.{BlockId}
use myc_db.Tx.LogOps.{LogOperation, log_operation_to_int}
use myc_db.Tx.Recovery.{block_pos, offset_pos, next_word, fill_update}

pub to_int_small : (n : ℕ) → n < 2 ^ 31 → to_int n ≡ pos n
to_int_small n h = ground arith

pub block_pos_lem : (f : Text) → length f + 20 < 2 ^ 31 → block_pos f ≡ ok (pos (12 + length f))
unfolding block_pos add_int
block_pos_lem f h = rw (to_int_small (length f) (omega arith)) (ground arith)

pub next_words :
    (n : ℕ)
    → n + 20 < 2 ^ 31
    → (offset_pos (pos (12 + n)) ≡ pos (16 + n)) × (next_word (pos (16 + n)) ≡ pos (20 + n))
next_words n h = (ground arith, ground arith)

-- The numbers of a record are of type `int`, its file name is made of whole words, and its fields end
-- before the value inside a page below 2 ^ 31 bytes.
pub record IsWritable (tx : ℤ) (blk : BlockId) (offset : ℤ) (size : ℕ) : Type 0 where
  pub tx_range : InInt tx
  pub block_range : InInt blk.blk_num
  pub offset_range : InInt offset
  pub words : length blk.filename % 4 ≡ 0
  pub room : length blk.filename + 24 ≤ size
  pub small : size < 2 ^ 31

-- The fields in front of the value.
pub record HasFields (p : Page) (op tx : ℤ) (blk : BlockId) (offset : ℤ) : Type 0 where
  pub op_word : get_int p (pos 0) ≡ ok op
  pub tx_word : get_int p (pos 4) ≡ ok tx
  pub file_text : HasText p 8 blk.filename
  pub block_word : get_int p (pos (12 + length blk.filename)) ≡ ok blk.blk_num
  pub offset_word : get_int p (pos (16 + length blk.filename)) ≡ ok offset

pub HasFields-Below :
    (p q : Page) (op tx : ℤ) (blk : BlockId) (offset : ℤ)
    → Below p q (20 + length blk.filename)
    → HasFields p op tx blk offset
    → HasFields q op tx blk offset
HasFields-Below p q op tx blk offset b h =
    let n = length blk.filename in
    let kept = λ (m : ℕ) (l : m + 4 ≤ 20 + n). get_int-Below p q (20 + n) m b l in
    record {
      op_word = kept 0 (omega arith) ∙ h.op_word;
      tx_word = kept 4 (omega arith) ∙ h.tx_word;
      file_text = HasText-Below p q (20 + n) 8 blk.filename b (omega arith) h.file_text;
      block_word = kept (12 + n) (omega arith) ∙ h.block_word;
      offset_word = kept (16 + n) (omega arith) ∙ h.offset_word;
    }

code_range : (op : LogOperation) → InInt (log_operation_to_int op)
unfolding log_operation_to_int
code_range LogOperation.checkpoint = (omega arith, omega arith)
code_range LogOperation.start = (omega arith, omega arith)
code_range LogOperation.commit = (omega arith, omega arith)
code_range LogOperation.rollback = (omega arith, omega arith)
code_range LogOperation.set_int = (omega arith, omega arith)
code_range LogOperation.set_str = (omega arith, omega arith)

-- The five writes in a row.
fill_steps :
    {A : Type 0} (put : Page → ℤ → A → Result Page) (op : LogOperation) (tx : ℤ) (blk : BlockId)
    (offset : ℤ) (v : A) (rec : List ℕ) (a b c d e : Page)
    → length blk.filename + 20 < 2 ^ 31
    → set_int (record { buffer = rec }) (pos 0) (log_operation_to_int op) ≡ ok a
    → set_int a (pos 4) tx ≡ ok b
    → set_string b (pos 8) blk.filename ≡ ok c
    → set_int c (pos (12 + length blk.filename)) blk.blk_num ≡ ok d
    → set_int d (pos (16 + length blk.filename)) offset ≡ ok e
    → fill_update put op tx blk offset v (pos (12 + length blk.filename)) rec
      ≡ put e (pos (20 + length blk.filename)) v
unfolding fill_update
fill_steps put op tx blk offset v rec a b c d e h ea eb ec ed ee =
    let (to_offset, to_value) = next_words (length blk.filename) h in
    rw (ea, eb, ec, ed, to_offset, ee, to_value) refl

-- Each field stays while those behind it are written.
fields_kept :
    (op tx : ℤ) (blk : BlockId) (offset : ℤ) (a b c d e : Page)
    → Below a b 4
    → Below b c 8
    → Below c d (12 + length blk.filename)
    → Below d e (16 + length blk.filename)
    → get_int a (pos 0) ≡ ok op
    → get_int b (pos 4) ≡ ok tx
    → HasText c 8 blk.filename
    → get_int d (pos (12 + length blk.filename)) ≡ ok blk.blk_num
    → get_int e (pos (16 + length blk.filename)) ≡ ok offset
    → HasFields e op tx blk offset
fields_kept op tx blk offset a b c d e ab bc cd de va vb vc vd ve =
    let n = length blk.filename in
    let ce = Below-trans c d e (12 + n) (16 + n) (omega arith) cd de in
    let be = Below-trans b c e 8 (12 + n) (omega arith) bc ce in
    let ae = Below-trans a b e 4 8 (omega arith) ab be in
    record {
      op_word = word_kept a e 4 0 op ae (omega arith) va;
      tx_word = word_kept b e 8 4 tx be (omega arith) vb;
      file_text = HasText-Below c e (12 + n) 8 blk.filename ce (omega arith) vc;
      block_word = word_kept d e (16 + n) (12 + n) blk.blk_num de (omega arith) vd;
      offset_word = ve;
    }

-- All but the last write of `write_to_log` succeed, and store the fields.
pub fill_update-HasFields :
    {A : Type 0} (put : Page → ℤ → A → Result Page) (op : LogOperation) (tx : ℤ) (blk : BlockId)
    (offset : ℤ) (v : A) (rec : List ℕ)
    → IsWritable tx blk offset (length rec)
    → (e : Page) × (fill_update put op tx blk offset v (pos (12 + length blk.filename)) rec
        ≡ put e (pos (20 + length blk.filename)) v)
      × (length e.buffer ≡ length rec)
      × HasFields e (log_operation_to_int op) tx blk offset
fill_update-HasFields put op tx blk offset v rec w =
    let n = length blk.filename in
    let z : Page = record { buffer = rec } in
    let (a, ea, ba, va) =
      set_int-there z 0 (log_operation_to_int op) (code_range op) refl (omega (arith, w.room))
        w.small in
    let (b, eb, bb, vb) =
      set_int-there a 4 tx w.tx_range refl (omega (arith, w.room, ba.size))
        (omega (arith, w.small, ba.size)) in
    let sb = size_kept a b 4 (length rec) bb ba.size in
    let (c, ec, bc, vc) =
      set_string-there b 8 blk.filename refl (omega (arith, w.room, sb))
        (omega (arith, w.small, sb)) in
    let sc = size_kept b c 8 (length rec) bc sb in
    let (d, ed, bd, vd) =
      set_int-there c (12 + n) blk.blk_num w.block_range (omega (arith, w.words))
        (omega (arith, w.room, sc)) (omega (arith, w.small, sc)) in
    let sd = size_kept c d (12 + n) (length rec) bd sc in
    let (e, ee, be, ve) =
      set_int-there d (16 + n) offset w.offset_range (omega (arith, w.words))
        (omega (arith, w.room, sd)) (omega (arith, w.small, sd)) in
    (
      e,
      fill_steps put op tx blk offset v rec a b c d e (omega (arith, w.room, w.small)) ea eb ec ed
          ee,
      size_kept d e (16 + n) (length rec) be sd,
      fields_kept (log_operation_to_int op) tx blk offset a b c d e bb bc bd be va vb vc vd ve,
    )
