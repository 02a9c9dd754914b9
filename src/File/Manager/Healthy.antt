-- ===== src/File/Manager/Healthy.antt =====
-- A file whose handler has not failed, as the list of its bytes: what each call does to it.
use myc_db.Prelude.{
  ℕ, ◌+◌, ◌*◌, ◌≤◌, ◌<◌, ◌^◌, ◌≡◌, ap, ◌∙◌, inl, inr, true, List, arith, length, replicate, take,
  take_all, read_at, pos, io_error, Result, ok, err, Text,
}
use myc_db.File.Page.{Page}
use myc_db.File.Block.{BlockId}
use myc_db.File.Stream.{Stream, good, seekg, seekp, read, write, overlay}
use myc_db.File.Manager.{
  FileMgr, with_handler, finish, mul_int, copy_size, read_block, read_page, write_block, write_page,
  check_write, check_read,
}
use myc_db.File.Manager.Handlers.{
  Holds, put_handler-Holds, handler-cases, with_handler-Holds, length-read_at, write_at-whole,
}

-- On a good stream: where a block starts, and how many bytes are copied.
pub mul_int-pos : (n b : ℕ) → n * b < 2 ^ 31 → mul_int (pos n) (pos b) ≡ ok (pos (n * b))
unfolding mul_int
mul_int-pos n b h = ground arith

copy_size-pos : (b : ℕ) (p : Page) → length p.buffer ≡ b → copy_size (pos b) p ≡ ok b
unfolding copy_size
copy_size-pos b p e = ground arith

take_whole : (b : ℕ) (p : Page) → length p.buffer ≡ b → take b p.buffer ≡ p.buffer
take_whole b p e = rw (← e) (take_all p.buffer)

pub write_block-start :
    (b n : ℕ) (p : Page) (s : Stream)
    → n * b < 2 ^ 31
    → length p.buffer ≡ b
    → write_block (pos b) (pos n) p s ≡ check_write tt (write p.buffer (seekp (pos (n * b)) s))
unfolding write_block
write_block-start b n p s r l =
    rw (mul_int-pos n b r, copy_size-pos b p l, take_whole b p l, write_block)

pub read_block-start :
    (b n : ℕ) (p : Page) (s : Stream)
    → n * b < 2 ^ 31
    → length p.buffer ≡ b
    → read_block (pos b) (pos n) p s ≡ check_read p (read b p.buffer (seekg (pos (n * b)) s))
unfolding read_block
read_block-start b n p s r l = rw (mul_int-pos n b r, copy_size-pos b p l, read_block)

-- The result of a call that leaves the stream good.
abbrev pub Leaves : {A : Type 0} → Result A × Stream → A → List ℕ → Type 0
Leaves r a xs = (r.0 ≡ ok a) × (good r.1 ≡ true) × (r.1.bytes ≡ xs)

pub written :
    {A : Type 0} (a : A) (p : List ℕ) (n : ℕ) (s : Stream)
    → good s ≡ true
    → Leaves (check_write a (write p (seekp (pos n) s))) a (overlay n p s.bytes)
unfolding check_write write seekp
written a p n s g = ground arith

read_inside :
    (b n : ℕ) (p : Page) (s : Stream)
    → good s ≡ true
    → length p.buffer ≡ b
    → n + b ≤ length s.bytes
    → Leaves
        (check_read p (read b p.buffer (seekg (pos n) s)))
        (record { buffer = read_at n b s.bytes })
        s.bytes
unfolding check_read read seekg
read_inside b n p s g l h =
    ground (arith, write_at-whole (read_at n b s.bytes) p.buffer, length-read_at n b s.bytes)

-- A short read: zeros, and a stream that has failed.
pub read_past :
    (b n : ℕ) (p : Page) (s : Stream)
    → good s ≡ true
    → 0 < b
    → length s.bytes < n + b
    → let r = check_read p (read b p.buffer (seekg (pos n) s)) in
      (r.0 ≡ ok (record { buffer = replicate (length p.buffer) 0 })) × (r.1.fail ≡ true)
unfolding check_read read seekg
read_past b n p s g z h = ground (arith, length-read_at n b s.bytes)

-- A stream that has failed refuses every later read.
pub read_failed :
    (b n : ℕ) (p : Page) (s : Stream)
    → s.fail ≡ true
    → let r = check_read p (read b p.buffer (seekg (pos n) s)) in
      (r.0 ≡ err io_error) × (r.1.fail ≡ true)
unfolding check_read read seekg
read_failed b n p s f = ground arith

pub written_failed :
    (p : List ℕ) (n : ℕ) (s : Stream)
    → s.fail ≡ true
    → let r = check_write tt (write p (seekp (pos n) s)) in
      (r.0 ≡ err io_error) × (r.1.fail ≡ true) × (r.1.bytes ≡ s.bytes)
unfolding check_write write seekp
written_failed p n s f = ground arith

abbrev pub block : Text → ℕ → BlockId
block f n = record { filename = f; blk_num = pos n }

pub with_handler-block_size :
    {A : Type 0} (fm : FileMgr) (f : Text) (call : Stream → Result A × Stream)
    → (with_handler f call fm).1.block_size ≡ fm.block_size
unfolding with_handler finish
with_handler-block_size fm f call = elim (handler-cases fm f) [
  | inl (s, e) ↦ rw (e, with_handler)
  | inr (x, e) ↦ rw (e, with_handler)
]

-- A call that leaves each good stream of these bytes good.
pub with_handler-Leaves :
    {A : Type 0} (fm : FileMgr) (f : Text) (call : Stream → Result A × Stream) (a : A)
    (xs ys : List ℕ)
    → Holds fm f xs
    → ((s : Stream) → good s ≡ true → s.bytes ≡ xs → Leaves (call s) a ys)
    → ((with_handler f call fm).0 ≡ ok a) × Holds (with_handler f call fm).1 f ys
with_handler-Leaves fm f call a xs ys h k =
    let l = k h.stream h.sound h.content in
    rw (with_handler-Holds fm f call h.stream h.handler)
      (l.0, put_handler-Holds fm f (call h.stream).1 ys l.1 l.2)

write_block-Leaves :
    (b n : ℕ) (p : Page) (s : Stream)
    → n * b < 2 ^ 31
    → length p.buffer ≡ b
    → good s ≡ true
    → Leaves (write_block (pos b) (pos n) p s) tt (overlay (n * b) p.buffer s.bytes)
write_block-Leaves b n p s r l g =
    rw (write_block-start b n p s r l) (written tt p.buffer (n * b) s g)

pub write_page-eq :
    (fm : FileMgr) (f : Text) (n b : ℕ) (p : Page)
    → fm.block_size ≡ pos b
    → write_page (block f n) p fm ≡ with_handler f (write_block (pos b) (pos n) p) fm
unfolding write_page
write_page-eq fm f n b p e = rw e

pub read_page-eq :
    (fm : FileMgr) (f : Text) (n b : ℕ) (p : Page)
    → fm.block_size ≡ pos b
    → read_page (block f n) p fm ≡ with_handler f (read_block (pos b) (pos n) p) fm
unfolding read_page
read_page-eq fm f n b p e = rw e

-- A page that is written to a file replaces its block there, and the file stays usable.
pub write_page-Holds :
    (fm : FileMgr) (f : Text) (xs : List ℕ) (b n : ℕ) (p : Page)
    → Holds fm f xs
    → fm.block_size ≡ pos b
    → n * b < 2 ^ 31
    → length p.buffer ≡ b
    → ((write_page (block f n) p fm).0 ≡ ok tt)
      × Holds (write_page (block f n) p fm).1 f (overlay (n * b) p.buffer xs)
write_page-Holds fm f xs b n p h e r l = rw (write_page-eq fm f n b p e) (
    with_handler-Leaves fm f _ tt xs _ h λ s g c.
      let w = write_block-Leaves b n p s r l g in (w.0, w.1, w.2 ∙ ap (overlay (n * b) p.buffer) c))

-- A block inside a file is read into the page, and the file stays as it was.
pub read_page-Holds :
    (fm : FileMgr) (f : Text) (xs : List ℕ) (b n : ℕ) (p : Page)
    → Holds fm f xs
    → fm.block_size ≡ pos b
    → n * b < 2 ^ 31
    → length p.buffer ≡ b
    → n * b + b ≤ length xs
    → ((read_page (block f n) p fm).0 ≡ ok (record { buffer = read_at (n * b) b xs }))
      × Holds (read_page (block f n) p fm).1 f xs
read_page-Holds fm f xs b n p h e r l i = rw (read_page-eq fm f n b p e) (
    with_handler-Leaves fm f _ _ xs xs h λ s g c.
      let w = read_inside b (n * b) p s g l (rw c i) in
      rw (read_block-start b n p s r l)
        (w.0 ∙ ap (λ (ys : List ℕ). ok (record { buffer = read_at (n * b) b ys })) c, w.1, w.2 ∙ c))
