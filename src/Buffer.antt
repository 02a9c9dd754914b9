-- ===== src/Buffer.antt =====
-- A buffer of the pool, over the shared log and files: src/libs/dbcore/buffer/buffer.h.
pub mod Manager
use myc_db.Prelude.{
  ℕ, zero, suc, ◌-◌, ◌+◌, ◌≡◌, Bool, true, false, ◌==◌, not, ltb, Option, none, some, if◌then◌else◌,
  ℤ, pos, negsuc, ◌-ℤ◌, ltb_ℤ, Result, ok, err, Op, return,
}
use myc_db.Prelude.Steps.{◌>>=◌, ◌>>◌}
use myc_db.File.Page.{Page}
use myc_db.File.Block.{BlockId}
use myc_db.File.Manager.{read_page, write_page}
use myc_db.Log.Manager.{LogStore, on_files, flush}

pub record Buffer : Type 0 where
  pub contents : Page
  pub block : Option BlockId
  pub pins : ℕ
  pub tx_num : ℤ
  pub lsn : ℤ

-- A buffer with no block yet, over a blank page.
abbrev pub make_buffer : Page → Buffer
make_buffer p = record { contents = p; block = none; pins = 0; tx_num = negsuc 0; lsn = negsuc 0 }

unfoldable pub is_pinned : Buffer → Bool
is_pinned b = ltb 0 b.pins

-- The LSN is kept only over one that is not negative, as the source tests the old one.
unfoldable pub set_modified : ℤ → ℤ → Buffer → Buffer
set_modified tx_num lsn b =
    if ltb_ℤ b.lsn (pos 0)
    then record b { tx_num = tx_num }
    else record b { tx_num = tx_num; lsn = lsn }

unfoldable pub pin_buffer : Buffer → Buffer
pin_buffer b = record b { pins = b.pins + 1 }

unfoldable pub unpin_buffer : Buffer → Buffer
unpin_buffer b = if b.pins == 0 then b else record b { pins = b.pins - 1 }

-- A buffer and the managers that it calls.
pub record BufferStore : Type 0 where
  pub log : LogStore
  pub buf : Buffer

abbrev pub on_log : {A : Type 0} → Op LogStore A → Op BufferStore A
on_log call s = ((call s.log).0, record s { log = (call s.log).1 })

abbrev pub change : (Buffer → Buffer) → Op BufferStore (Unit {0})
change f s = (ok tt, record s { buf = f s.buf })

-- `flush()`: a modified buffer is written behind its log record.
unfoldable pub write_back : BlockId → Op BufferStore (Unit {0})
write_back blk s = steps s
  where
    steps : Op BufferStore (Unit {0})
    steps = do
      on_log (flush s.buf.lsn)
      on_log (on_files (write_page blk s.buf.contents))
      change λ b. record b { tx_num = b.tx_num -ℤ pos 1 }

unfoldable pub flush_buffer : Op BufferStore (Unit {0})
unfolding write_back
flush_buffer s = elim s.buf.block [
  | none ↦ (ok tt, s)
  | some blk ↦ if ltb_ℤ s.buf.tx_num (pos 0) then (ok tt, s) else write_back blk s
]

-- `assign_to_block`: the block is set before it is read.
unfoldable pub assign_to_block : BlockId → Op BufferStore (Unit {0})
unfolding flush_buffer
assign_to_block blk = do
  flush_buffer
  change λ b. record b { block = some blk }
  p ← λ s. on_log (on_files (read_page blk s.buf.contents)) s
  change λ b. record b { contents = p; pins = 0 }
