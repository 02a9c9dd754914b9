-- ===== src/Tx/Transaction.antt =====
-- A transaction over its buffers, locks and log records: src/libs/dbcore/tx/transaction.{h,cpp} and
-- tx/recovery/recovery_mgr.h. What the other threads do while a call waits is an argument.
pub mod Updates
pub mod Reading
pub mod Rollback
pub mod Recover
use myc_db.Prelude.{
  ℕ, zero, suc, Bool, true, false, ◌||◌, List, [], ◌∷◌, Option, none, some, if◌then◌else◌, ℤ, pos,
  negsuc, ◌==ℤ◌, undefined, deadlock, Result, ok, err, Op, bind, continue, return, throw, lift,
  Text,
}
use myc_db.Prelude.Steps.{◌>>=◌, ◌>>◌}
use myc_db.File.Page
use myc_db.File.Page.{Page, get_int, get_string, set_string, add_int}
use myc_db.File.Block.{BlockId}
use myc_db.File.Manager
use myc_db.File.Manager.{FileMgr, len}
use myc_db.Log.Iterator.{LogIterator, has_next, next}
use myc_db.Log.Manager.{LogStore, flush, iterator}
use myc_db.Buffer.{Buffer, set_modified}
use myc_db.Buffer.Manager.{BufferMgr, flush_all}
use myc_db.Tx.LockTable.{LockTable, ConcurrencyMgr, take_s_lock, take_x_lock, release}
use myc_db.Tx.LogOps.{LogOperation}
use myc_db.Tx.Recovery.{
  LogRecord, checkpoint_record, start_record, commit_record, rollback_record, set_int_record,
  set_str_record, operation, record_tx_num, create_log_record, log_set_int, log_set_str, log_start,
  log_commit, log_rollback, log_checkpoint,
}
use myc_db.Tx.BufferList.{BufferList, get_buffer, put_copy, list_pin, list_unpin, unpin_all}

pub record Transaction : Type 0 where
  pub list : BufferList
  pub cm : ConcurrencyMgr
  pub tx_num : ℤ

-- What the other threads do during the waits of a call, for each state that the call finds.
pub record Others : Type 0 where
  pub pool_waits : BufferMgr → List (BufferMgr → BufferMgr)
  pub s_waits : LockTable → List (LockTable → LockTable)
  pub x_waits : LockTable → List (LockTable → LockTable)

-- Calls on the parts.
abbrev pub on_list : {A : Type 0} → Op BufferList A → Op Transaction A
on_list call t = ((call t.list).0, record t { list = (call t.list).1 })

abbrev pub on_locks : {A : Type 0} → Op ConcurrencyMgr A → Op Transaction A
on_locks call t = ((call t.cm).0, record t { cm = (call t.cm).1 })

abbrev pub on_bm : {A : Type 0} → Op BufferMgr A → Op Transaction A
on_bm call t = ((call t.list.bm).0, record t { list = record t.list { bm = (call t.list.bm).1 } })

abbrev pub on_lm : {A : Type 0} → Op LogStore A → Op Transaction A
on_lm call = on_bm λ m. ((call m.log).0, record m { log = (call m.log).1 })

abbrev pub on_fm : {A : Type 0} → Op FileMgr A → Op Transaction A
on_fm call = on_lm λ s. ((call s.fm).0, record s { fm = (call s.fm).1 })

-- `*buf`, where `buf` may be a null pointer.
unfoldable pub the_buffer : BlockId → Op Transaction Buffer
unfolding get_buffer
the_buffer blk t = elim (get_buffer blk t.list) [ none ↦ (err undefined, t) | some b ↦ (ok b, t) ]

-- `recovery_mgr::set_int` and `set_string`: the old value goes to the log.
unfoldable pub log_old_int : Buffer → ℤ → Op Transaction ℤ
log_old_int b offset t = elim b.block [
  | none ↦ (err undefined, t)
  | some blk ↦
      bind (lift (get_int b.contents offset)) (λ old. on_lm (log_set_int t.tx_num blk offset old)) t
]

unfoldable pub log_old_str : Buffer → ℤ → Op Transaction ℤ
log_old_str b offset t = elim b.block [
  | none ↦ (err undefined, t)
  | some blk ↦
      bind (lift (get_string b.contents offset))
        (λ old. on_lm (log_set_str t.tx_num blk offset old)) t
]

-- `buf->set_modified(m_tx_num, lsn)`, on the copy of the block.
unfoldable pub mark_copy : BlockId → Buffer → ℤ → Op Transaction (Unit {0})
mark_copy blk b lsn t = (
  ok tt,
  record t {
    list = record t.list { buffers = put_copy t.list.buffers blk (set_modified t.tx_num lsn b) };
  },
)

unfoldable pub tx_unpin : BlockId → Op Transaction (Unit {0})
tx_unpin blk t = (ok tt, record t { list = list_unpin blk t.list })

-- The block -1 of a file stands for its end.
abbrev pub end_block : Text → BlockId
end_block filename = record { filename = filename; blk_num = negsuc 0 }

-- `create_log_record(log_iter.next())`, where a null pointer is then used.
unfoldable pub next_record : LogIterator → Op Transaction (LogRecord × LogIterator)
next_record it = bind (on_fm (next it)) λ (bytes, it').
    bind (lift (create_log_record bytes))
      λ found. elim found [ none ↦ throw undefined | some rec ↦ return (rec, it') ]

unfoldable pub is_start : LogOperation → Bool
is_start LogOperation.start = true
is_start _ = false

unfoldable pub is_finish : LogOperation → Bool
is_finish LogOperation.commit = true
is_finish LogOperation.rollback = true
is_finish _ = false

unfoldable pub is_checkpoint : LogOperation → Bool
is_checkpoint LogOperation.checkpoint = true
is_checkpoint _ = false

unfoldable pub is_among : ℤ → List ℤ → Bool
is_among z [] = false
is_among z (y ∷ l) = y ==ℤ z || is_among z l

-- `m_bm.flush_all(m_tx_num)`, and a record that is flushed.
abbrev pub flush_mine : Op Transaction (Unit {0})
flush_mine t = on_bm (flush_all t.tx_num) t

abbrev pub log_end : Op LogStore ℤ → Op Transaction (Unit {0})
log_end call = bind (on_lm call) λ lsn. on_lm (flush lsn)

-- The end of a transaction.
abbrev pub release_all : Op Transaction (Unit {0})
release_all = bind (on_locks release) λ _ t. (ok tt, record t { list = unpin_all t.list })

-- `recovery_mgr::commit`.
unfoldable pub mgr_commit : Op Transaction (Unit {0})
mgr_commit t = bind flush_mine (λ _. log_end (log_commit t.tx_num)) t

unfoldable pub commit : Op Transaction (Unit {0})
unfolding mgr_commit
commit = bind mgr_commit λ _. release_all

module _ (o : Others) where
  unfoldable pub tx_pin : BlockId → Op Transaction (Unit {0})
  tx_pin blk t = on_list (list_pin (o.pool_waits t.list.bm) blk) t

  abbrev pub lock_s : BlockId → Op Transaction (Unit {0})
  lock_s blk t = on_locks (take_s_lock (o.s_waits t.cm.table) blk) t

  abbrev pub lock_x : BlockId → Op Transaction (Unit {0})
  lock_x blk t = on_locks (take_x_lock (o.s_waits t.cm.table) (o.x_waits t.cm.table) blk) t

  unfoldable pub tx_get_int : BlockId → ℤ → Op Transaction ℤ
  unfolding the_buffer
  tx_get_int blk offset = do lock_s blk; b ← the_buffer blk; lift (get_int b.contents offset)

  unfoldable pub tx_get_str : BlockId → ℤ → Op Transaction Text
  unfolding the_buffer
  tx_get_str blk offset = do lock_s blk; b ← the_buffer blk; lift (get_string b.contents offset)

  -- The page `p` that is written is a copy of the contents, and is dropped.
  unfoldable pub tx_set_int : BlockId → ℤ → ℤ → Bool → Op Transaction (Unit {0})
  unfolding the_buffer log_old_int mark_copy
  tx_set_int blk offset v ok_to_log = do
    lock_x blk
    b ← the_buffer blk
    lsn ← (if ok_to_log then log_old_int b offset else return (negsuc 0))
    p ← lift (Page.set_int b.contents offset v)
    mark_copy blk b lsn

  unfoldable pub tx_set_str : BlockId → ℤ → Text → Bool → Op Transaction (Unit {0})
  unfolding the_buffer log_old_str mark_copy
  tx_set_str blk offset v ok_to_log = do
    lock_x blk
    b ← the_buffer blk
    lsn ← (if ok_to_log then log_old_str b offset else return (negsuc 0))
    p ← lift (set_string b.contents offset v)
    mark_copy blk b lsn

  unfoldable pub tx_size : Text → Op Transaction ℤ
  tx_size filename = do lock_s (end_block filename); on_fm (len filename)

  unfoldable pub tx_append : Text → Op Transaction BlockId
  tx_append filename = do lock_x (end_block filename); on_fm (Manager.append filename)

  -- `undo` of the two update records.
  unfoldable pub undo_set_int : BlockId → ℤ → ℤ → Op Transaction (Unit {0})
  unfolding tx_pin tx_set_int tx_unpin
  undo_set_int blk offset v = do tx_pin blk; tx_set_int blk offset v false; tx_unpin blk

  unfoldable pub undo_set_str : BlockId → ℤ → Text → Op Transaction (Unit {0})
  unfolding tx_pin tx_set_str tx_unpin
  undo_set_str blk offset v = do tx_pin blk; tx_set_str blk offset v false; tx_unpin blk

  -- `undo` of a record; the one of the start, commit and rollback records has no body.
  unfoldable pub undo : LogRecord → Op Transaction (Unit {0})
  unfolding undo_set_int undo_set_str
  undo checkpoint_record = return tt
  undo (start_record tx) = throw undefined
  undo (commit_record tx) = throw undefined
  undo (rollback_record tx) = throw undefined
  undo (set_int_record tx blk offset v) = undo_set_int blk offset v
  undo (set_str_record tx blk offset v) = undo_set_str blk offset v

  -- The loop of `do_rollback`, with a bound on its rounds.
  unfoldable pub undo_back : ℕ → LogIterator → Op Transaction (Unit {0})
  unfolding next_record is_start undo
  undo_back zero it t = (err deadlock, t)
  undo_back (suc rounds) it t = elim (has_next it t.list.bm.log.fm.block_size) [
    | false ↦ (ok tt, t)
    | true ↦ continue (next_record it t) λ (rec, it') u. elim (record_tx_num rec ==ℤ u.tx_num) [
      | false ↦ undo_back rounds it' u
      | true ↦ elim (is_start (operation rec)) [
        | true ↦ (ok tt, u)
        | false ↦ bind (undo rec) (λ _. undo_back rounds it') u
      ]
    ]
  ]

  unfoldable pub do_rollback : ℕ → Op Transaction (Unit {0})
  unfolding undo_back
  do_rollback rounds = bind (on_lm iterator) λ it. undo_back rounds it

  -- The loop of `do_recover`.
  unfoldable pub recover_back : ℕ → List ℤ → LogIterator → Op Transaction (Unit {0})
  unfolding next_record is_finish is_checkpoint is_among undo
  recover_back zero finished it t = (err deadlock, t)
  recover_back (suc rounds) finished it t = elim (has_next it t.list.bm.log.fm.block_size) [
    | false ↦ (ok tt, t)
    | true ↦ continue (next_record it t) λ (rec, it') u. elim (is_checkpoint (operation rec)) [
      | true ↦ (ok tt, u)
      | false ↦ elim (is_finish (operation rec)) [
        | true ↦ recover_back rounds (record_tx_num rec ∷ finished) it' u
        | false ↦ elim (is_among (record_tx_num rec) finished) [
          | true ↦ recover_back rounds finished it' u
          | false ↦ bind (undo rec) (λ _. recover_back rounds finished it') u
        ]
      ]
    ]
  ]

  unfoldable pub do_recover : ℕ → Op Transaction (Unit {0})
  unfolding recover_back
  do_recover rounds = bind (on_lm iterator) λ it. recover_back rounds [] it

  -- `recovery_mgr::rollback` and `recover`.
  unfoldable pub mgr_rollback : ℕ → Op Transaction (Unit {0})
  unfolding do_rollback
  mgr_rollback rounds t =
      bind (do_rollback rounds) (λ _. bind flush_mine λ _. log_end (log_rollback t.tx_num)) t

  unfoldable pub mgr_recover : ℕ → Op Transaction (Unit {0})
  unfolding do_recover
  mgr_recover rounds = bind (do_recover rounds) λ _. bind flush_mine λ _. log_end log_checkpoint

  unfoldable pub rollback : ℕ → Op Transaction (Unit {0})
  unfolding mgr_rollback
  rollback rounds = bind (mgr_rollback rounds) λ _. release_all

  unfoldable pub recover : ℕ → Op Transaction (Unit {0})
  unfolding mgr_recover
  recover rounds = bind flush_mine λ _. mgr_recover rounds

-- The constructor, with the counter `m_next_tx`: the record of the start goes to the log.
new_transaction : BufferMgr → LockTable → ℤ → Transaction
new_transaction m table z = record {
  list = record { bm = m; buffers = []; pins = [] };
  cm = record { table = table; locks = []; mtx_held = false };
  tx_num = z;
}

unfoldable pub make_transaction : ℤ → BufferMgr → LockTable → Result ℤ × Transaction
unfolding new_transaction
make_transaction next_tx m table = elim (add_int next_tx (pos 1)) [
  | err e ↦ (err e, new_transaction m table next_tx)
  | ok z ↦ bind (on_lm (log_start z)) (λ lsn. return z) (new_transaction m table z)
]
