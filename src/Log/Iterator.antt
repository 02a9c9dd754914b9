-- ===== src/Log/Iterator.antt =====
-- The log iterator, from the newest record to the oldest: src/libs/dbcore/log/log_iterator.h.
use myc_db.Prelude.{
  ℕ, zero, suc, Bool, true, false, ◌||◌, List, [], ◌∷◌, if◌then◌else◌, length, ℤ, pos, ◌+ℤ◌, ◌-ℤ◌,
  ltb_ℤ, ◌==ℤ◌, ok, Op, return, lift, bind, continue, Option, none, some,
}
use mathlib.Core.Option
use myc_db.Prelude.Steps.{◌>>=◌}
use myc_db.File.Page.{Page, make_page, get_int, get_bytes, to_int, int_size}
use myc_db.File.Block.{BlockId}
use myc_db.File.Manager.{FileMgr, read_page}

pub record LogIterator : Type 0 where
  pub block : BlockId
  pub page : Page
  pub cur_pos : ℤ
  pub boundary : ℤ

-- `move_to_block`.
unfoldable pub move_to_block : LogIterator → BlockId → Op FileMgr LogIterator
move_to_block it blk = do
  p ← read_page blk it.page
  start ← lift (get_int p (pos 0))
  return (record { block = blk; page = p; cur_pos = start; boundary = start })

-- The constructor.
unfoldable pub make_iterator : BlockId → Op FileMgr LogIterator
unfolding move_to_block
make_iterator blk fm = start fm
  where
    start : Op FileMgr LogIterator
    start = do
      p ← lift (make_page fm.block_size)
      move_to_block (record { block = blk; page = p; cur_pos = pos 0; boundary = pos 0 }) blk

unfoldable pub has_next : LogIterator → ℤ → Bool
has_next it block_size = ltb_ℤ it.cur_pos block_size || ltb_ℤ (pos 0) it.block.blk_num

-- `next()`: at the end of a block the iterator goes on with the block before.
unfoldable pub enter_block : LogIterator → Op FileMgr LogIterator
unfolding move_to_block
enter_block it fm =
    if it.cur_pos ==ℤ fm.block_size
    then move_to_block it (record it.block { blk_num = it.block.blk_num -ℤ pos 1 }) fm
    else (ok it, fm)

unfoldable pub next : LogIterator → Op FileMgr (List ℕ × LogIterator)
unfolding enter_block
next it = do
  it' ← enter_block it
  rec ← lift (get_bytes it'.page it'.cur_pos)
  return (rec, record it' { cur_pos = it'.cur_pos +ℤ (pos int_size +ℤ to_int (length rec)) })

-- `while (it.has_next()) { … it.next() … }`, the loop of its clients, with a bound on the rounds.
unfoldable pub read_all : ℕ → LogIterator → Op FileMgr (Option (List (List ℕ)))
unfolding has_next next
read_all zero it fm = (ok none, fm)
read_all (suc fuel) it fm = elim (has_next it fm.block_size) [
  | false ↦ (ok (some []), fm)
  | true ↦
      continue (next it fm)
        λ (rec, it'). bind (read_all fuel it') λ rest. return (Option.map (◌∷◌ rec) rest)
]
