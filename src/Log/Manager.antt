-- ===== src/Log/Manager.antt =====
-- The log manager: src/libs/dbcore/log/log_mgr.h.
use myc_db.Prelude.{
  ℕ, ◌*◌, ◌/◌, ◌%◌, Bool, ◌&&◌, List, [], ◌==◌, if◌then◌else◌, length, ℤ, pos, ◌+ℤ◌, ◌-ℤ◌, ltb_ℤ,
  ◌==ℤ◌, pos_part, neg_part, size_of, runtime, Result, ok, guard, Op, return, lift, Text,
}
use myc_db.Prelude.Steps.{◌>>=◌, ◌>>◌}
use myc_db.File.Page.{Page, make_page, get_int, set_int, set_bytes, to_int, int_size}
use myc_db.File.Block.{BlockId, default_block}
use myc_db.File.Manager
use myc_db.File.Manager.{FileMgr, read_page, write_page, len}
use myc_db.Log.Iterator.{LogIterator, make_iterator}

pub record LogMgr : Type 0 where
  pub log_file : Text
  pub log_page : Page
  pub cur_blk : BlockId
  pub latest_lsn : ℤ
  pub last_saved_lsn : ℤ

-- The log manager and the file manager that it shares.
pub record LogStore : Type 0 where
  pub fm : FileMgr
  pub lm : LogMgr

-- A call of the file manager.
abbrev pub on_files : {A : Type 0} → Op FileMgr A → Op LogStore A
on_files call s = ((call s.fm).0, record s { fm = (call s.fm).1 })

abbrev pub put_page : Page → Op LogStore (Unit {0})
put_page p s = (ok tt, record s { lm = record s.lm { log_page = p } })

abbrev pub put_block : BlockId → Op LogStore (Unit {0})
put_block blk s = (ok tt, record s { lm = record s.lm { cur_blk = blk } })

-- `(block_size / sizeof(int)) * sizeof(int)`.
abbrev pub aligned_boundary : ℤ → ℤ
aligned_boundary block_size = to_int (size_of block_size / int_size * int_size)

unfoldable pub append_new_block : Op LogStore BlockId
append_new_block s = steps s
  where
    steps : Op LogStore BlockId
    steps = do
      blk ← on_files (Manager.append s.lm.log_file)
      p ← lift (set_int s.lm.log_page (pos 0) (aligned_boundary s.fm.block_size))
      put_page p
      on_files (write_page blk p)
      return blk

unfoldable pub flush_internal : Op LogStore (Unit {0})
flush_internal s = steps s
  where
    mark_saved : Op LogStore (Unit {0})
    mark_saved t = (ok tt, record t { lm = record t.lm { last_saved_lsn = t.lm.latest_lsn } })

    steps : Op LogStore (Unit {0})
    steps = do on_files (write_page s.lm.cur_blk s.lm.log_page); mark_saved

unfoldable pub flush : ℤ → Op LogStore (Unit {0})
unfolding flush_internal
flush lsn s = if ltb_ℤ lsn s.lm.latest_lsn then (ok tt, s) else flush_internal s

-- The constructor. A log that has blocks gets a new one, and an empty log has its block -1 read.
unfoldable pub make_log_mgr : Text → FileMgr → Result (Unit {0}) × LogStore
unfolding append_new_block
make_log_mgr log_file fm = start blank
  where
    blank : LogStore
    blank = record {
      fm = fm;
      lm = record {
        log_file = log_file;
        log_page = record { buffer = [] };
        cur_blk = default_block;
        latest_lsn = pos 0;
        last_saved_lsn = pos 0;
      };
    }

    last_block : ℤ → BlockId
    last_block log_size = record { filename = log_file; blk_num = log_size -ℤ pos 1 }

    fresh : Op LogStore (Unit {0})
    fresh = do blk ← append_new_block; put_block blk

    resume : ℤ → Page → Op LogStore (Unit {0})
    resume log_size page = do
      put_block (last_block log_size)
      p ← on_files (read_page (last_block log_size) page)
      put_page p

    start : Op LogStore (Unit {0})
    start = do
      page ← lift (make_page fm.block_size)
      put_page page
      log_size ← on_files (len log_file)
      if log_size ==ℤ pos 0 then resume log_size page else fresh

-- `iterator()`.
unfoldable pub iterator : Op LogStore LogIterator
unfolding flush_internal
iterator s = steps s
  where
    steps : Op LogStore LogIterator
    steps = do flush_internal; on_files (make_iterator s.lm.cur_blk)

-- `x % int_size != 0`, for an `int` of either sign.
abbrev pub is_aligned : ℤ → Bool
is_aligned z = pos_part z % int_size == 0 && neg_part z % int_size == 0

-- The tail of `append`: the record goes below the boundary, and the boundary to its start.
unfoldable pub place_record : List ℕ → ℤ → Op LogStore ℤ
place_record log_rec rec_pos s = steps s
  where
    count : Op LogStore ℤ
    count t =
        let lsn = t.lm.latest_lsn +ℤ pos 1 in
        (ok lsn, record t { lm = record t.lm { latest_lsn = lsn } })

    steps : Op LogStore ℤ
    steps = do
      lift (guard (is_aligned rec_pos) runtime)
      p ← lift (set_bytes s.lm.log_page rec_pos log_rec)
      put_page p
      q ← lift (set_int p (pos 0) rec_pos)
      put_page q
      count

abbrev pub bytes_needed : List ℕ → ℤ
bytes_needed log_rec = to_int (length log_rec) +ℤ pos int_size

unfoldable pub start_block : Op LogStore ℤ
unfolding flush_internal append_new_block
start_block = do
  flush_internal
  blk ← append_new_block
  put_block blk
  λ s. (get_int s.lm.log_page (pos 0), s)

unfoldable pub append : List ℕ → Op LogStore ℤ
unfolding place_record start_block
append log_rec s = steps s
  where
    room : ℤ → Op LogStore ℤ
    room boundary =
        if ltb_ℤ (boundary -ℤ bytes_needed log_rec) (pos int_size)
        then start_block
        else return boundary

    steps : Op LogStore ℤ
    steps = do
      old ← lift (get_int s.lm.log_page (pos 0))
      boundary ← room old
      place_record log_rec (boundary -ℤ bytes_needed log_rec)
