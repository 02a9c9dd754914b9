-- ===== src/File/Manager/Laws.antt =====
-- The file manager against its abstract view: a file is a list of bytes, cut into blocks.
use myc_db.Prelude.{
  ◌/◌, ◌==◌, signed-word_of, ℕ, zero, suc, ◌+◌, ◌*◌, ◌≤◌, ◌<◌, ◌^◌, ◌≡◌, refl, sym, append-nil, ap,
  ◌∙◌, List, [], ◌∷◌, ◌++◌, arith, length, replicate, read_at, ℤ, pos, ltb_ℤ, Result, ok, err, Text,
  true, false,
}
use native.Mathlib.Nat.{mul-div_cancel}
use myc_db.File.Page.{Page}
use myc_db.File.Stream.{Stream, good, overlay, seekg_end, seekp, tellg, write}
use myc_db.File.Stream.Blocks.{read_at-overlay}
use myc_db.File.Manager.{
  FileMgr, read_page, write_page, append, len, append_block, len_blocks, count_blocks, with_handler,
  append_zeros, name_block, check_write,
}
use myc_db.File.Manager.Handlers.{Holds}
use myc_db.File.Manager.Healthy.{
  written, mul_int-pos, Leaves, block, with_handler-block_size, write_page-eq, read_page-eq,
  with_handler-Leaves, write_page-Holds, read_page-Holds,
}

overlay_end : (vs xs : List ℕ) → overlay (length xs) vs xs ≡ xs ++ vs
unfolding overlay
overlay_end [] xs = sym (append-nil xs)
overlay_end (v ∷ vs) [] = refl
overlay_end (v ∷ vs) (x ∷ xs) = ap (◌∷◌ x) (overlay_end (v ∷ vs) xs)

some_blocks : (b : ℕ) → 0 < b → (b == 0) ≡ false
some_blocks b h = ground arith

-- The count of whole blocks in a file.
count_blocks-whole :
    (k b : ℕ) → 0 < b → k * b < 2 ^ 31 → count_blocks (pos (k * b)) (pos b) ≡ ok (pos k)
unfolding count_blocks
count_blocks-whole k b h r =
    let few : k < 2 ^ 31 = grind arith in
    let whole : (k * b) / b ≡ k = mul-div_cancel k h in
    rw (some_blocks b h, whole, signed-word_of (pos k) (few, omega arith)) refl

at_end :
    (s : Stream)
    → good s ≡ true
    → (good (seekg_end s) ≡ true)
      × ((seekg_end s).bytes ≡ s.bytes)
      × (tellg (seekg_end s) ≡ pos (length s.bytes))
unfolding seekg_end tellg
at_end s g = ground arith

nonneg : (b : ℕ) → ltb_ℤ (pos b) (pos 0) ≡ false
nonneg b = ground arith

append_block-start :
    (k b : ℕ) (s : Stream)
    → 0 < b
    → k * b < 2 ^ 31
    → length s.bytes ≡ k * b
    → good s ≡ true
    → append_block (pos b) s
      ≡ check_write (pos k) (write (replicate b 0) (seekp (pos (k * b)) (seekg_end s)))
unfolding append_block
append_block-start k b s z r l g = rw (
  nonneg b,
  (at_end s g).2 ∙ ap pos l,
  count_blocks-whole k b z r,
  append_zeros,
  mul_int-pos k b r,
  append_block,
)

append_block-Leaves :
    (k b : ℕ) (s : Stream)
    → 0 < b
    → k * b < 2 ^ 31
    → length s.bytes ≡ k * b
    → good s ≡ true
    → Leaves (append_block (pos b) s) (pos k) (s.bytes ++ replicate b 0)
append_block-Leaves k b s z r l g =
    let (g', e, t) = at_end s g in
    let w = written (pos k) (replicate b 0) (k * b) (seekg_end s) g' in
    rw (append_block-start k b s z r l g)
      (w.0, w.1, w.2 ∙ rw (e, ← l) (overlay_end (replicate b 0) s.bytes))

append-eq :
    (fm : FileMgr) (f : Text) (b : ℕ)
    → fm.block_size ≡ pos b
    → append f fm ≡ name_block f (with_handler f (append_block (pos b)) fm)
unfolding append
append-eq fm f b e = rw e

name_block-Holds :
    (f : Text) (k : ℕ) (r : Result ℤ × FileMgr) (ys : List ℕ)
    → r.0 ≡ ok (pos k)
    → Holds r.1 f ys
    → ((name_block f r).0 ≡ ok (block f k)) × Holds (name_block f r).1 f ys
unfolding name_block
name_block-Holds f k (ok n, t) ys p q = (ground arith, q)
name_block-Holds f k (err x, t) ys p q = cc

name_block-block_size :
    (f : Text) (r : Result ℤ × FileMgr) → (name_block f r).1.block_size ≡ r.1.block_size
unfolding name_block
name_block-block_size f (ok n, t) = refl
name_block-block_size f (err e, t) = refl

-- To a usable file of whole blocks, below 2 ^ 31: a block of zeros is appended behind the last, and is
-- numbered by the blocks before it.
pub append-Holds :
    (fm : FileMgr) (f : Text) (xs : List ℕ) (b k : ℕ)
    → Holds fm f xs
    → fm.block_size ≡ pos b
    → 0 < b
    → k * b < 2 ^ 31
    → length xs ≡ k * b
    → ((append f fm).0 ≡ ok (block f k)) × Holds (append f fm).1 f (xs ++ replicate b 0)
unfolding append
append-Holds fm f xs b k h e z r l =
    let (ends, holds) =
      with_handler-Leaves fm f (append_block (pos b)) (pos k) xs (xs ++ replicate b 0) h λ s g c.
        let w = append_block-Leaves k b s z r (ap length c ∙ l) g in
        (w.0, w.1, w.2 ∙ ap (λ (ys : List ℕ). ys ++ replicate b 0) c) in
    rw (append-eq fm f b e) (name_block-Holds f k _ _ ends holds)

-- `append` keeps the size of a block.
pub append-block_size :
    (fm : FileMgr) (f : Text) (b : ℕ)
    → fm.block_size ≡ pos b
    → (append f fm).1.block_size ≡ fm.block_size
append-block_size fm f b e = rw (append-eq fm f b e) (
    name_block-block_size f (with_handler f (append_block (pos b)) fm)
    ∙ with_handler-block_size fm f _)

len-eq :
    (fm : FileMgr) (f : Text) (b : ℕ)
    → fm.block_size ≡ pos b
    → len f fm ≡ with_handler f (len_blocks (pos b)) fm
unfolding len
len-eq fm f b e = rw e

len_blocks-Leaves :
    (s : Stream) (k b : ℕ)
    → length s.bytes ≡ k * b
    → 0 < b
    → k * b < 2 ^ 31
    → good s ≡ true
    → Leaves (len_blocks (pos b) s) (pos k) s.bytes
unfolding len_blocks
len_blocks-Leaves s k b l z r g =
    let (g', c, t) = at_end s g in (rw (t ∙ ap pos l, count_blocks-whole k b z r), g', c)

-- The length of a usable file of whole blocks, below 2 ^ 31 bytes, is their number, and the file stays as it was.
pub len-Holds :
    (fm : FileMgr) (f : Text) (xs : List ℕ) (b k : ℕ)
    → Holds fm f xs
    → fm.block_size ≡ pos b
    → 0 < b
    → k * b < 2 ^ 31
    → length xs ≡ k * b
    → ((len f fm).0 ≡ ok (pos k)) × Holds (len f fm).1 f xs
len-Holds fm f xs b k h e z r l = rw (len-eq fm f b e) (
    with_handler-Leaves fm f (len_blocks (pos b)) (pos k) xs xs h
      λ s g c. let w = len_blocks-Leaves s k b (ap length c ∙ l) z r g in (w.0, w.1, w.2 ∙ c))

pub write_page-block_size :
    (fm : FileMgr) (f : Text) (n b : ℕ) (p : Page)
    → fm.block_size ≡ pos b
    → (write_page (block f n) p fm).1.block_size ≡ fm.block_size
write_page-block_size fm f n b p e =
    rw (write_page-eq fm f n b p e) (with_handler-block_size fm f _)

pub read_page-block_size :
    (fm : FileMgr) (f : Text) (n b : ℕ) (p : Page)
    → fm.block_size ≡ pos b
    → (read_page (block f n) p fm).1.block_size ≡ fm.block_size
read_page-block_size fm f n b p e = rw (read_page-eq fm f n b p e) (with_handler-block_size fm f _)

overlay-reach :
    (n b : ℕ) (vs xs : List ℕ) → length vs ≡ b → 0 < b → n + b ≤ length (overlay n vs xs)
unfolding overlay
overlay-reach n b [] xs l z = absurd (omega arith)
overlay-reach zero b (v ∷ []) [] l z = omega arith
overlay-reach zero b (v ∷ w ∷ vs) [] l z = omega arith
overlay-reach zero b (v ∷ []) (x ∷ xs) l z = omega arith
overlay-reach zero b (v ∷ w ∷ vs) (x ∷ xs) l z =
    omega (arith, overlay-reach zero (length (w ∷ vs)) (w ∷ vs) xs refl (omega arith))
overlay-reach (suc n) b (v ∷ vs) [] l z = omega (arith, overlay-reach n b (v ∷ vs) [] l z)
overlay-reach (suc n) b (v ∷ vs) (x ∷ xs) l z = omega (arith, overlay-reach n b (v ∷ vs) xs l z)

pub read_at-overlay_whole :
    (n b : ℕ) (vs xs : List ℕ) → length vs ≡ b → read_at n b (overlay n vs xs) ≡ vs
read_at-overlay_whole n b vs xs l = rw (← l) (read_at-overlay n vs xs)

-- What was written to a block below 2 ^ 31 of a usable file is read from it, from and into pages of
-- the size of a block.
pub read_page-write_page :
    (fm : FileMgr) (f : Text) (xs : List ℕ) (b n : ℕ) (p q : Page)
    → Holds fm f xs
    → fm.block_size ≡ pos b
    → 0 < b
    → n * b < 2 ^ 31
    → length p.buffer ≡ b
    → length q.buffer ≡ b
    → (read_page (block f n) q (write_page (block f n) p fm).1).0 ≡ ok p
read_page-write_page fm f xs b n p q h e z r l m =
    let (done, holds) = write_page-Holds fm f xs b n p h e r l in
    let got =
      read_page-Holds (write_page (block f n) p fm).1 f _ b n q holds
        (write_page-block_size fm f n b p e ∙ e) r m (overlay-reach (n * b) b p.buffer xs l z) in
    got.0
    ∙ ap (λ (ys : List ℕ). ok (record { buffer = ys }))
        (read_at-overlay_whole (n * b) b p.buffer xs l)
