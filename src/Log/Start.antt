-- ===== src/Log/Start.antt =====
-- How the log manager starts: the constructor in src/libs/dbcore/log/log_mgr.h.
use myc_db.Prelude.{
  ℕ, ◌<◌, ◌^◌, ◌≡◌, ◌∙◌, List, [], arith, length, length-replicate, replicate, negsuc, pos,
  io_error, ok, err, Text, ℤ,
}
use myc_db.File.Page.{Page, make_page}
use myc_db.File.Stream.{Stream, seekg, read}
use myc_db.File.Manager.{
  FileMgr, mul_int, copy_size, check_read, read_block, read_page, len, with_handler, len_blocks,
}
use myc_db.File.Manager.Handlers.{Holds, with_handler-Holds}
use myc_db.File.Manager.Healthy.{with_handler-block_size}
use myc_db.File.Manager.Laws.{len-Holds}
use myc_db.Log.Manager.{make_log_mgr}

read_block-before :
    (b : ℕ) (p : Page) (s : Stream)
    → 0 < b
    → b < 2 ^ 31
    → length p.buffer ≡ b
    → (read_block (pos b) (negsuc 0) p s).0 ≡ err io_error
unfolding read_block mul_int copy_size seekg read check_read
read_block-before b p s z r l = ground arith

read_page-before-eq :
    (fm : FileMgr) (f : Text) (b : ℕ) (p : Page)
    → fm.block_size ≡ pos b
    → read_page (record { filename = f; blk_num = negsuc 0 }) p fm
      ≡ with_handler f (read_block (pos b) (negsuc 0) p) fm
unfolding read_page
read_page-before-eq fm f b p e = rw e

-- Block -1 of a file cannot be read.
read_page-before :
    (fm : FileMgr) (f : Text) (xs : List ℕ) (b : ℕ) (p : Page)
    → Holds fm f xs
    → fm.block_size ≡ pos b
    → 0 < b
    → b < 2 ^ 31
    → length p.buffer ≡ b
    → (read_page (record { filename = f; blk_num = negsuc 0 }) p fm).0 ≡ err io_error
read_page-before fm f xs b p h e z r l =
    rw
      (
        read_page-before-eq fm f b p e,
        with_handler-Holds fm f (read_block (pos b) (negsuc 0) p) h.stream h.handler,
      )
      (read_block-before b p h.stream z r l)

len-block_size : (fm : FileMgr) (f : Text) → (len f fm).1.block_size ≡ fm.block_size
unfolding len
len-block_size fm f = with_handler-block_size fm f (len_blocks fm.block_size)

make_page-size : (z : ℤ) (b : ℕ) → z ≡ pos b → make_page z ≡ ok (record { buffer = replicate b 0 })
unfolding make_page
make_page-size z b e = rw e

-- A log manager cannot be started on a log file that is still empty: it reads block -1.
pub make_log_mgr_empty :
    (fm : FileMgr) (f : Text) (b : ℕ)
    → Holds fm f []
    → fm.block_size ≡ pos b
    → 0 < b
    → b < 2 ^ 31
    → (make_log_mgr f fm).0 ≡ err io_error
unfolding make_log_mgr
make_log_mgr_empty fm f b h e z r =
    let (none_there, still) = len-Holds fm f [] b 0 h e z (omega arith) (omega arith) in
    let refused =
      read_page-before (len f fm).1 f [] b (record { buffer = replicate b 0 }) still
        (len-block_size fm f ∙ e) z r (length-replicate b 0) in
    rw (make_page-size fm.block_size b e, none_there, refused)
