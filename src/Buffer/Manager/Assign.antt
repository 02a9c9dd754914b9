-- ===== src/Buffer/Manager/Assign.antt =====
-- A buffer that is flushed or assigned to a block keeps its pins, or has none.
use myc_db.Prelude.{◌≡◌, some, arith, ok, Option-cases, inl, inr, Op}
use myc_db.File.Block.{BlockId}
use myc_db.Buffer.{BufferStore, flush_buffer, write_back, assign_to_block}

-- An operation that keeps the pins of its buffer, whether or not it throws.
abbrev KeepsPins : {A : Type 0} → Op BufferStore A → Type 0
KeepsPins call = (s : BufferStore) → (call s).1.buf.pins ≡ s.buf.pins

write_back-KeepsPins : (blk : BlockId) → KeepsPins (write_back blk)
unfolding write_back
write_back-KeepsPins blk s = ground arith

flush_buffer-KeepsPins : KeepsPins flush_buffer
unfolding flush_buffer
flush_buffer-KeepsPins s = elim (Option-cases s.buf.block) [
  | inl e ↦ rw (e, flush_buffer)
  | inr (blk, e) ↦ rw (e, flush_buffer) (ground (arith, write_back-KeepsPins blk s))
]

-- A buffer with no pins has none after it has been assigned, also if that throws.
pub assign_to_block-pins :
    (blk : BlockId) (s : BufferStore) → s.buf.pins ≡ 0 → (assign_to_block blk s).1.buf.pins ≡ 0
unfolding assign_to_block
assign_to_block-pins blk s e = ground (arith, flush_buffer-KeepsPins s)

-- When the assignment ends well, the buffer is that of the block.
pub assign_to_block-block :
    (blk : BlockId) (s : BufferStore)
    → (assign_to_block blk s).0 ≡ ok tt
    → ((assign_to_block blk s).1.buf.block ≡ some blk) × ((assign_to_block blk s).1.buf.pins ≡ 0)
unfolding assign_to_block
assign_to_block-block blk s e = ground arith
