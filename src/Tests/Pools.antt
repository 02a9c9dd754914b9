-- ===== src/Tests/Pools.antt =====
-- A concrete pool of two buffers, the first pinned, and locks of concrete blocks.
use myc_db.Prelude.{refl, inl, [], ◌∷◌, pos, negsuc, text, same_text}
use myc_db.File.Block.{BlockId, same_block}
use myc_db.Buffer.{make_buffer, is_pinned}
use myc_db.Buffer.Manager.{BufferMgr, pin, unpin}
use myc_db.Buffer.Manager.Count.{IsCounted, count_free}
use myc_db.Buffer.Manager.Pinned.{unpin-IsCounted, pin-IsCounted}
use myc_db.Tx.LockTable.{get_lock_value, s_lock, x_lock}
use myc_db.Tx.Exclusion.{Owners, reads, upgrades, Reach, here, next, IsExclusive, Reach-IsExclusive}
use myc_db.Tests.Files.{zeros_16}
use myc_db.Tests.Logs.{store}

abbrev pool_2 : BufferMgr
pool_2 = record {
  log = store zeros_16;
  pool = record (make_buffer zeros_16) { pins = 1 } ∷ make_buffer zeros_16 ∷ [];
  num_available = pos 1;
}

pool_2-IsCounted : IsCounted pool_2
unfolding count_free is_pinned
pool_2-IsCounted = refl

abbrev block_a : BlockId
block_a = record { filename = text "a"; blk_num = pos 0 }

abbrev block_b : BlockId
block_b = record { filename = text "b"; blk_num = pos 0 }

pin-IsCounted_example : IsCounted (pin ((λ m. m) ∷ []) block_a pool_2).1
pin-IsCounted_example =
    pin-IsCounted ((λ m. m) ∷ []) block_a pool_2 ((λ m h. h), tt) pool_2-IsCounted

unpin-IsCounted_example : IsCounted (unpin 0 pool_2).1
unfolding is_pinned
unpin-IsCounted_example =
    unpin-IsCounted pool_2 0 (record (make_buffer zeros_16) { pins = 1 }) refl refl pool_2-IsCounted

-- One transaction reads a block and then writes it.
abbrev unlocked : Owners
unlocked = record { table = []; readers = 0; writers = 0 }

abbrev written : Owners
written = record { table = (block_a, negsuc 0) ∷ []; readers = 0; writers = 1 }

written-Reach : Reach block_a unlocked written
unfolding s_lock x_lock same_block same_text get_lock_value
written-Reach =
    next (next here (reads [] ((block_a, pos 1) ∷ []) 0 0 refl))
      (upgrades ((block_a, pos 1) ∷ []) ((block_a, negsuc 0) ∷ []) 0 0 refl)

unlocked-IsExclusive : IsExclusive block_a unlocked
unfolding get_lock_value
unlocked-IsExclusive = inl (refl, refl)

Reach-IsExclusive_example : IsExclusive block_a written
Reach-IsExclusive_example = Reach-IsExclusive unlocked-IsExclusive written-Reach
