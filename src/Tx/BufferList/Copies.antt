-- ===== src/Tx/BufferList/Copies.antt =====
-- What a transaction unpins are its copies: the pool keeps its pins.
use myc_db.Prelude.{
  ◌≡◌, refl, ap, ◌∙◌, List, [], ◌∷◌, some, arith, pos, ◌+ℤ◌, Bool-cases, inl, inr, if◌then◌else◌,
  Option-cases, get_elem?, ℕ, ok, subst, continue-ok, ◌<◌, true, Result, err,
}
use myc_db.File.Block.{BlockId, same_block, same_block_refl}
use myc_db.Buffer.{Buffer, is_pinned, unpin_buffer}
use myc_db.Buffer.Manager
use myc_db.Buffer.Manager.{BufferMgr, holds_block}
use myc_db.Buffer.Manager.Given.{Given, pin-Given}
use myc_db.Tx.BufferList.{
  BufferList, on_pool, find_copy, put_copy, keep_copy, list_pin, unpin_copy, unpin_kept, unpin_each,
  list_unpin, unpin_all,
}

unpin_copy-pool : (b : Buffer) (m : BufferMgr) → (unpin_copy b m).1.pool ≡ m.pool
unfolding unpin_copy
unpin_copy-pool b m = ground arith

unpin_copy-count :
    (b : Buffer) (m : BufferMgr)
    → (unpin_copy b m).1.num_available
      ≡ (if is_pinned (unpin_buffer b) then m.num_available else m.num_available +ℤ pos 1)
unfolding unpin_copy
unpin_copy-count b m = ground arith

unpin_kept-pool : (blk : BlockId) (l : BufferList) → (unpin_kept blk l).bm.pool ≡ l.bm.pool
unfolding unpin_kept
unpin_kept-pool blk l = elim (Option-cases (find_copy l.buffers blk)) [
  | inl e ↦ rw (e, unpin_kept) refl
  | inr (b, e) ↦ rw (e, unpin_kept) (unpin_copy-pool b l.bm)
]

find_copy-put_copy :
    (l : List (BlockId × Buffer)) (blk : BlockId) (b : Buffer)
    → find_copy (put_copy l blk b) blk ≡ some b
unfolding find_copy put_copy
find_copy-put_copy [] blk b = rw (same_block_refl blk) refl
find_copy-put_copy ((c, a) ∷ l) blk b = elim (Bool-cases (same_block c blk)) [
  | inl e ↦ ground arith
  | inr e ↦ ground (arith, find_copy-put_copy l blk b)
]

unpin_each-pool : (pins : List BlockId) (l : BufferList) → (unpin_each pins l).bm.pool ≡ l.bm.pool
unfolding unpin_each
unpin_each-pool [] l = refl
unpin_each-pool (blk ∷ pins) l = unpin_each-pool pins (unpin_kept blk l) ∙ unpin_kept-pool blk l

pub unpin_all-pool : (l : BufferList) → (unpin_all l).bm.pool ≡ l.bm.pool
unfolding unpin_all
unpin_all-pool l = unpin_each-pool l.pins l

list_unpin-copy :
    (blk : BlockId) (l : BufferList) (b : Buffer)
    → find_copy l.buffers blk ≡ some b
    → (list_unpin blk l).bm ≡ (unpin_copy b l.bm).1
unfolding list_unpin unpin_kept
list_unpin-copy blk l b e = rw (e, list_unpin) (rw (e, unpin_kept) refl)

-- What a successful pin keeps: a copy of a buffer of the pool.
record Kept (blk : BlockId) (l : BufferList) : Type 0 where
  place : ℕ
  buf : Buffer
  pooled : get_elem? l.bm.pool place ≡ some buf
  held : holds_block blk buf ≡ true
  pinned : 0 < buf.pins
  copied : find_copy l.buffers blk ≡ some buf

keep_copy-Kept :
    (blk : BlockId) (i : ℕ) (l l' : BufferList)
    → Given blk i l.bm
    → keep_copy blk i l ≡ (ok tt, l')
    → Kept blk l'
unfolding keep_copy
keep_copy-Kept blk i l l' g e =
    subst (Kept blk) (ap (λ r. r.1) (rw (g.there, keep_copy) at e)) (record {
      place = i;
      buf = g.buf;
      pooled = g.there;
      held = g.held;
      pinned = g.pinned;
      copied = find_copy-put_copy l.buffers blk g.buf;
    })

pool_answer :
    (r : Result ℕ × BufferMgr) (l t : BufferList) (i : ℕ)
    → ◌≡◌ {A = Result ℕ × BufferList} (r.0, record l { bm = r.1 }) (ok i, t)
    → r ≡ (ok i, t.bm)
pool_answer (ok k, m) l t i e = cc
pool_answer (err x, m) l t i e = cc

list_pin-Kept :
    (waits : List (BufferMgr → BufferMgr)) (blk : BlockId) (l l' : BufferList)
    → list_pin waits blk l ≡ (ok tt, l')
    → Kept blk l'
unfolding list_pin
list_pin-Kept waits blk l l' e =
    let (i, t, pinned, kept) = continue-ok (on_pool (Manager.pin waits blk) l) (keep_copy blk) e in
    let given =
      pin-Given waits blk l.bm i t.bm (pool_answer (Manager.pin waits blk l.bm) l t i pinned) in
    keep_copy-Kept blk i t l' given kept

-- A block that is pinned stands in a buffer of the pool which is pinned, and that buffer stays as it is
-- when the block is unpinned again: `unpin` releases the copy alone, which counts as available once it
-- has no pin left.
pub list_unpin-list_pin :
    (waits : List (BufferMgr → BufferMgr)) (blk : BlockId) (l l' : BufferList)
    → list_pin waits blk l ≡ (ok tt, l')
    → (i : ℕ) × (b : Buffer) × (get_elem? l'.bm.pool i ≡ some b)
      × (holds_block blk b ≡ true)
      × (0 < b.pins)
      × (get_elem? (list_unpin blk l').bm.pool i ≡ some b)
      × ((list_unpin blk l').bm.num_available ≡ (
          if is_pinned (unpin_buffer b) then l'.bm.num_available else l'.bm.num_available +ℤ pos 1))
unfolding unpin_copy
list_unpin-list_pin waits blk l l' e =
    let k = list_pin-Kept waits blk l l' e in
    let same = list_unpin-copy blk l' k.buf k.copied in
    (
      k.place,
      k.buf,
      k.pooled,
      k.held,
      k.pinned,
      ap (λ (m : BufferMgr). get_elem? m.pool k.place) same
          ∙ ap (λ (p : List Buffer). get_elem? p k.place) (unpin_copy-pool k.buf l'.bm)
          ∙ k.pooled,
      ap (λ (m : BufferMgr). m.num_available) same ∙ unpin_copy-count k.buf l'.bm,
    )
