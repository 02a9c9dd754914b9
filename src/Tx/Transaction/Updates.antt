-- ===== src/Tx/Transaction/Updates.antt =====
-- A transaction writes nothing: its exclusive lock is never given.
use myc_db.Prelude.{◌≡◌, refl, Bool, ℤ, deadlock, Result, err, Op, Text, bind}
use myc_db.File.Block.{BlockId}
use myc_db.Tx.Exclusion.{take_x_lock_deadlock}
use myc_db.Tx.Transaction.{
  Transaction, Others, lock_x, tx_set_int, tx_set_str, tx_append, end_block,
}

-- A call that never ends, and leaves the buffers, the pool, the log and the files as they were.
abbrev pub Hangs : {A : Type 0} → Transaction → Result A × Transaction → Type 0
Hangs t r = (r.0 ≡ err deadlock) × (r.1.list ≡ t.list)

lock_x-first :
    {A : Type 0} (o : Others) (blk : BlockId) (rest : Op Transaction A) (t : Transaction)
    → Hangs t (bind (lock_x o blk) (λ _. rest) t)
lock_x-first o blk rest t =
    rw (take_x_lock_deadlock (o.s_waits t.cm.table) (o.x_waits t.cm.table) blk t.cm) (refl, refl)

-- `set_int`, `set_str` and `append` of a transaction never end, logged or not, whatever the other
-- threads do, and write nothing.
pub tx_writes_deadlock :
    (o : Others) (t : Transaction) (blk : BlockId) (offset v : ℤ) (s file : Text) (ok_to_log : Bool)
    → Hangs t (tx_set_int o blk offset v ok_to_log t)
      × Hangs t (tx_set_str o blk offset s ok_to_log t)
      × Hangs t (tx_append o file t)
unfolding tx_set_int tx_set_str tx_append
tx_writes_deadlock o t blk offset v s file ok_to_log =
    (lock_x-first o blk _ t, lock_x-first o blk _ t, lock_x-first o (end_block file) _ t)
