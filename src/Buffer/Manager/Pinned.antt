-- ===== src/Buffer/Manager/Pinned.antt =====
-- Who gets a buffer, and what a release does to the count.
use myc_db.Prelude.{
  ℕ, suc, ◌≡◌, inl, inr, true, List, [], ◌∷◌, Option, none, some, arith, get_elem?, pos,
  buffer_abort, Result, ok, err, Op, continue, return, throw, Bool-cases,
}
use myc_db.File.Block.{BlockId}
use myc_db.Buffer.{Buffer, is_pinned, unpin_buffer}
use myc_db.Buffer.Manager.Count.{
  count_free, IsCounted, count_free-set_same, count_free-set_free, try_pin-IsCounted,
}
use myc_db.Buffer.Manager.{BufferMgr, try_pin, pin, unpin}

-- `unpin` of a buffer that is pinned keeps the count.
pub unpin-IsCounted :
    (m : BufferMgr) (i : ℕ) (b : Buffer)
    → get_elem? m.pool i ≡ some b
    → is_pinned b ≡ true
    → IsCounted m
    → IsCounted (unpin i m).1
unfolding unpin
unpin-IsCounted m i b e p h =
    rw (e, unpin)
      (elim (Bool-cases (is_pinned (unpin_buffer b))) [
        | inl q ↦ ground (arith, h, count_free-set_same m.pool i b (unpin_buffer b) e)
        | inr q ↦ ground (arith, h, count_free-set_free m.pool i b (unpin_buffer b) e)
      ])

-- `unpin` of a buffer that nobody has pinned counts it as available once more.
pub unpin_not_pinned :
    (m : BufferMgr) (i : ℕ) (b : Buffer)
    → get_elem? m.pool i ≡ some b
    → b.pins ≡ 0
    → IsCounted m
    → (unpin i m).1.num_available ≡ pos (suc (count_free (unpin i m).1.pool))
unfolding unpin
unpin_not_pinned m i b e p h =
    rw (e, unpin) (ground (arith, h, count_free-set_same m.pool i b (unpin_buffer b) e))

-- Every one of the threads that run during the waits keeps the count.
abbrev pub AllKeep : List (BufferMgr → BufferMgr) → Type 0
AllKeep [] = Unit {0}
AllKeep (others ∷ waits) = ((m : BufferMgr) → IsCounted m → IsCounted (others m)) × AllKeep waits

last_try :
    (r : Result (Option ℕ) × BufferMgr)
    → IsCounted r.1
    → IsCounted
        (continue {B = ℕ} r
          (λ found. elim found [ some i ↦ return i | none ↦ throw buffer_abort ])).1
last_try (ok none, t) h = h
last_try (ok (some i), t) h = h
last_try (err e, t) h = h

try_again :
    (again : Op BufferMgr ℕ) (r : Result (Option ℕ) × BufferMgr)
    → ((t : BufferMgr) → IsCounted t → IsCounted (again t).1)
    → IsCounted r.1
    → IsCounted (continue r (λ found. elim found [ some i ↦ return i | none ↦ again ])).1
try_again again (ok none, t) k h = k t h
try_again again (ok (some i), t) k h = h
try_again again (err e, t) k h = h

-- `pin` keeps the count in every case, if the other threads do while it waits.
pub pin-IsCounted :
    (waits : List (BufferMgr → BufferMgr)) (blk : BlockId) (m : BufferMgr)
    → AllKeep waits
    → IsCounted m
    → IsCounted (pin waits blk m).1
unfolding pin
pin-IsCounted [] blk m k h = last_try (try_pin blk m) (try_pin-IsCounted blk m h)
pin-IsCounted (others ∷ waits) blk m (k, ks) h =
    try_again (λ t. pin waits blk (others t)) (try_pin blk m)
      (λ t g. pin-IsCounted waits blk (others t) ks (k t g)) (try_pin-IsCounted blk m h)
