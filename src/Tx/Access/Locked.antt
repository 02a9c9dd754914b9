-- ===== src/Tx/Access/Locked.antt =====
-- A transaction reads a block that it has locked and pinned from its copy, and stays as it is.
use myc_db.Prelude.{◌≡◌, refl, List, some, false, ℤ, ok}
use myc_db.File.Page.{get_int}
use myc_db.File.Block.{BlockId}
use myc_db.Buffer.{Buffer}
use myc_db.Tx.LockTable.{LockTable, ConcurrencyMgr, Mode, find_mode, take_s_lock}
use myc_db.Tx.BufferList.{find_copy, get_buffer}
use myc_db.Tx.Transaction.{Transaction, Others, tx_get_int, the_buffer}

-- The transaction has a lock on the block, and a copy of its buffer.
pub record HasCopy (t : Transaction) (blk : BlockId) (b : Buffer) : Type 0 where
  pub idle : t.cm.mtx_held ≡ false
  pub mode : Mode
  pub locked : find_mode t.cm.locks blk ≡ some mode
  pub copy : find_copy t.list.buffers blk ≡ some b

take_s_lock-again :
    (waits : List (LockTable → LockTable)) (blk : BlockId) (c : ConcurrencyMgr) (m : Mode)
    → c.mtx_held ≡ false
    → find_mode c.locks blk ≡ some m
    → take_s_lock waits blk c ≡ (ok tt, c)
unfolding take_s_lock
take_s_lock-again waits blk c m h e = rw (take_s_lock, h, e) refl

-- `get_int` of a transaction, on a block that it has locked and pinned.
pub tx_get_int-HasCopy :
    (o : Others) (t : Transaction) (blk : BlockId) (b : Buffer) (offset : ℤ)
    → HasCopy t blk b
    → tx_get_int o blk offset t ≡ (get_int b.contents offset, t)
unfolding tx_get_int the_buffer get_buffer
tx_get_int-HasCopy o t blk b offset h =
    rw
      (
        take_s_lock-again (o.s_waits t.cm.table) blk t.cm h.mode h.idle h.locked,
        the_buffer,
        get_buffer,
        h.copy,
      )
      refl
