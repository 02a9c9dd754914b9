-- ===== src/Buffer/Manager.antt =====
-- The buffer manager: src/libs/dbcore/buffer/buffer_mgr.{h,cpp}. A buffer is named by its place in
-- the pool. Each call holds the mutex; a waiting `pin` gives it up, and what the other threads do
-- until it wakes is an argument.
mod Assign
pub mod Count
pub mod Given
pub mod Pinned
use myc_db.Prelude.{
  ℕ, zero, suc, ◌+◌, ◌-◌, ◌≡◌, Bool, true, false, not, List, [], ◌∷◌, Option, none, some,
  if◌then◌else◌, get_elem?, set, replicate, ℤ, pos, negsuc, ◌+ℤ◌, ◌-ℤ◌, ◌==ℤ◌, Error, buffer_abort,
  undefined, Result, ok, err, Op, bind, continue, return, throw,
}
use myc_db.Prelude.Steps.{◌>>=◌, ◌>>◌}
use myc_db.File.Page.{Page, make_page}
use myc_db.File.Block.{BlockId, same_block}
use myc_db.Log.Manager.{LogStore}
use myc_db.Buffer.{
  Buffer, BufferStore, make_buffer, is_pinned, pin_buffer, unpin_buffer, flush_buffer,
  assign_to_block,
}

pub record BufferMgr : Type 0 where
  pub log : LogStore
  pub pool : List Buffer
  pub num_available : ℤ

-- The constructor: each buffer has a page of its own.
unfoldable pub make_buffer_mgr : LogStore → ℤ → Result BufferMgr
unfolding make_page
make_buffer_mgr log (pos zero) = ok (record { log = log; pool = []; num_available = pos 0 })
make_buffer_mgr log (pos (suc n)) = elim (make_page log.fm.block_size) [
  | ok p ↦
      ok (record {
        log = log;
        pool = replicate (suc n) (make_buffer p);
        num_available = pos (suc n);
      })
  | err e ↦ err e
]
make_buffer_mgr log (negsuc n) = ok (record { log = log; pool = []; num_available = negsuc n })

unfoldable pub holds_block : BlockId → Buffer → Bool
holds_block blk b = elim b.block [ none ↦ false | some c ↦ same_block c blk ]

-- The first buffer of the pool that passes a test.
unfoldable pub find_buffer : (Buffer → Bool) → List Buffer → Option ℕ
find_buffer test [] = none
find_buffer test (b ∷ bs) =
    if test b then some 0 else elim (find_buffer test bs) [ none ↦ none | some i ↦ some (suc i) ]

unfoldable pub find_existing_buffer : BlockId → List Buffer → Option ℕ
unfolding find_buffer holds_block
find_existing_buffer blk pool = find_buffer (holds_block blk) pool

unfoldable pub choose_unpinned_buffer : List Buffer → Option ℕ
unfolding find_buffer is_pinned
choose_unpinned_buffer pool = find_buffer (λ b. not (is_pinned b)) pool

-- A call on a buffer of the pool.
pub put_back : {A : Type 0} → BufferMgr → ℕ → Result A × BufferStore → Result A × BufferMgr
put_back m i (r, s) = (r, record m { log = s.log; pool = set m.pool i s.buf })

unfoldable pub on_buffer : {A : Type 0} → ℕ → Op BufferStore A → Op BufferMgr A
unfolding put_back
on_buffer i call m = elim (get_elem? m.pool i) [
  | none ↦ (err undefined, m)
  | some b ↦ put_back m i (call (record { log = m.log; buf = b }))
]

-- The end of `try_pin`, for the buffer that was found or assigned.
abbrev pub take_available : Buffer → BufferMgr → BufferMgr
take_available b m =
    if is_pinned b then m else record m { num_available = m.num_available -ℤ pos 1 }

unfoldable pub pin_found : ℕ → Op BufferMgr (Option ℕ)
unfolding is_pinned pin_buffer
pin_found i m = elim (get_elem? m.pool i) [
  | none ↦ (err undefined, m)
  | some b ↦ (ok (some i), record (take_available b m) { pool = set m.pool i (pin_buffer b) })
]

unfoldable pub try_pin : BlockId → Op BufferMgr (Option ℕ)
unfolding find_existing_buffer choose_unpinned_buffer on_buffer assign_to_block pin_found
try_pin blk m = elim (find_existing_buffer blk m.pool) [
  | some i ↦ pin_found i m
  | none ↦ elim (choose_unpinned_buffer m.pool) [
    | none ↦ (ok none, m)
    | some i ↦ bind (on_buffer i (assign_to_block blk)) (λ _. pin_found i) m
  ]
]

-- `pin`: each entry of the list is what the other threads do during one wait; after the last wait
-- the time is up.
unfoldable pub pin : List (BufferMgr → BufferMgr) → BlockId → Op BufferMgr ℕ
unfolding try_pin
pin [] blk m =
    continue (try_pin blk m) (λ found. elim found [ some i ↦ return i | none ↦ throw buffer_abort ])
pin (others ∷ waits) blk m =
    continue (try_pin blk m)
      (λ found. elim found [ some i ↦ return i | none ↦ λ t. pin waits blk (others t) ])

unfoldable pub unpin : ℕ → Op BufferMgr (Unit {0})
unfolding is_pinned unpin_buffer
unpin i m = elim (get_elem? m.pool i) [
  | none ↦ (err undefined, m)
  | some b ↦
      let n = record m { pool = set m.pool i (unpin_buffer b) } in
      if is_pinned (unpin_buffer b)
      then (ok tt, n)
      else (ok tt, record n { num_available = m.num_available +ℤ pos 1 })
]

-- `flush_all`: the buffers that the transaction has modified, in the order of the pool.
flush_one : ℤ → ℕ → Op BufferMgr (Unit {0})
unfolding on_buffer flush_buffer
flush_one tx_num i m = elim (get_elem? m.pool i) [
  | none ↦ (ok tt, m)
  | some b ↦ if b.tx_num ==ℤ tx_num then on_buffer i flush_buffer m else (ok tt, m)
]

flush_from : ℤ → ℕ → List Buffer → Op BufferMgr (Unit {0})
unfolding flush_one
flush_from tx_num i [] = return tt
flush_from tx_num i (b ∷ bs) = do flush_one tx_num i; flush_from tx_num (suc i) bs

unfoldable pub flush_all : ℤ → Op BufferMgr (Unit {0})
unfolding flush_from
flush_all tx_num m = flush_from tx_num 0 m.pool m
