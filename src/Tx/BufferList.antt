-- ===== src/Tx/BufferList.antt =====
-- The buffers that a transaction has pinned: src/libs/dbcore/tx/buffer_list.h. It keeps a copy of each
-- buffer of the pool, made when the block was pinned.
pub mod Copies
use myc_db.Prelude.{
  Bool, true, false, ◌||◌, List, [], ◌∷◌, ◌++◌, Option, none, some, if◌then◌else◌, get_elem?, pos,
  ◌+ℤ◌, undefined, ok, err, Op, continue, ℕ,
}
use myc_db.File.Block.{BlockId, same_block}
use myc_db.Buffer.{Buffer, is_pinned, unpin_buffer}
use myc_db.Buffer.Manager
use myc_db.Buffer.Manager.{BufferMgr}

-- `buffers` has different keys.
pub record BufferList : Type 0 where
  pub bm : BufferMgr
  pub buffers : List (BlockId × Buffer)
  pub pins : List BlockId

unfoldable pub find_copy : List (BlockId × Buffer) → BlockId → Option Buffer
find_copy [] blk = none
find_copy ((c, b) ∷ l) blk = if same_block c blk then some b else find_copy l blk

-- `buffers[blk] = …`.
unfoldable pub put_copy : List (BlockId × Buffer) → BlockId → Buffer → List (BlockId × Buffer)
put_copy [] blk b = (blk, b) ∷ []
put_copy ((c, a) ∷ l) blk b = if same_block c blk then (c, b) ∷ l else (c, a) ∷ put_copy l blk b

-- `buffers.erase(blk)`.
unfoldable pub erase_copy : List (BlockId × Buffer) → BlockId → List (BlockId × Buffer)
erase_copy [] blk = []
erase_copy ((c, a) ∷ l) blk = if same_block c blk then l else (c, a) ∷ erase_copy l blk

unfoldable pub get_buffer : BlockId → BufferList → Option Buffer
unfolding find_copy
get_buffer blk l = find_copy l.buffers blk

-- `pin`: the buffer that the pool gives is copied.
unfoldable pub keep_copy : BlockId → ℕ → Op BufferList (Unit {0})
unfolding put_copy
keep_copy blk i l = elim (get_elem? l.bm.pool i) [
  | none ↦ (err undefined, l)
  | some b ↦ (ok tt, record l { buffers = put_copy l.buffers blk b; pins = l.pins ++ blk ∷ [] })
]

abbrev pub on_pool : {A : Type 0} → Op BufferMgr A → Op BufferList A
on_pool call l = ((call l.bm).0, record l { bm = (call l.bm).1 })

unfoldable pub list_pin : List (BufferMgr → BufferMgr) → BlockId → Op BufferList (Unit {0})
unfolding keep_copy
list_pin waits blk l = continue (on_pool (Manager.pin waits blk) l) (keep_copy blk)

-- `bm.unpin(*buf)`, which is given the copy.
unfoldable pub unpin_copy : Buffer → BufferMgr → Buffer × BufferMgr
unfolding is_pinned unpin_buffer
unpin_copy b m =
    let c = unpin_buffer b in
    (c, if is_pinned c then m else record m { num_available = m.num_available +ℤ pos 1 })

-- `pins.erase(std::remove(…))`, and `std::find(…) != pins.end()`.
unfoldable pub remove_block : BlockId → List BlockId → List BlockId
remove_block blk [] = []
remove_block blk (c ∷ l) =
    let rest = remove_block blk l in if same_block c blk then rest else c ∷ rest

unfoldable pub pins_block : BlockId → List BlockId → Bool
pins_block blk [] = false
pins_block blk (c ∷ l) = same_block c blk || pins_block blk l

-- `bm.unpin(*get_buffer(blk))`, if there is a copy.
unfoldable pub unpin_kept : BlockId → BufferList → BufferList
unfolding find_copy put_copy unpin_copy
unpin_kept blk l = elim (find_copy l.buffers blk) [
  | none ↦ l
  | some b ↦ record l {
    bm = (unpin_copy b l.bm).1;
    buffers = put_copy l.buffers blk (unpin_copy b l.bm).0;
  }
]

unfoldable pub list_unpin : BlockId → BufferList → BufferList
unfolding find_copy unpin_kept remove_block pins_block erase_copy
list_unpin blk l = elim (find_copy l.buffers blk) [
  | none ↦ l
  | some b ↦
      let u = unpin_kept blk l in
      let rest = remove_block blk u.pins in
      record u {
        pins = rest;
        buffers = if pins_block blk rest then u.buffers else erase_copy u.buffers blk;
      }
]

unfoldable pub unpin_each : List BlockId → BufferList → BufferList
unfolding unpin_kept
unpin_each [] l = l
unpin_each (blk ∷ pins) l = unpin_each pins (unpin_kept blk l)

unfoldable pub unpin_all : BufferList → BufferList
unfolding unpin_each
unpin_all l = record (unpin_each l.pins l) { buffers = []; pins = [] }
