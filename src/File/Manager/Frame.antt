-- ===== src/File/Manager/Frame.antt =====
-- What a call of the file manager leaves alone, and what a read past the end of a file breaks.
use myc_db.Prelude.{
  ℕ, zero, suc, ◌+◌, ◌*◌, ◌≤◌, ◌<◌, ◌^◌, ◌≡◌, refl, sym, ap, ◌∙◌, ◌≢◌, ◌⊎◌, inl, inr, List, [], ◌∷◌,
  arith, length, read_at, replicate, pos, io_error, Result, ok, err, Text, true,
}
use native.Mathlib.Nat.{mul-le-mul_right}
use native.Mathlib.Decide.{dec_lt}
use myc_db.File.Page.{Page}
use myc_db.File.Stream.{Stream, overlay, read, seekg, seekp, write}
use myc_db.File.Stream.Blocks.{read_at-overlay_above, read_at-overlay_below}
use myc_db.File.Manager.{
  FileMgr, read_page, write_page, get_file_handler, put_handler, read_block, write_block,
  check_read, check_write,
}
use myc_db.File.Manager.Handlers.{
  Holds, with_handler-Holds, with_handler-Holds_other, get_file_handler-put_handler_self,
  put_handler-block_size,
}
use myc_db.File.Manager.Healthy.{
  block, write_page-Holds, read_page-Holds, write_page-eq, read_page-eq, read_block-start,
  read_past, read_failed, write_block-start, written_failed,
}
use myc_db.File.Manager.Laws.{write_page-block_size}

length-le-overlay : (n : ℕ) (vs xs : List ℕ) → length xs ≤ length (overlay n vs xs)
unfolding overlay
length-le-overlay n [] xs = omega arith
length-le-overlay n (v ∷ vs) [] = omega arith
length-le-overlay zero (v ∷ vs) (x ∷ xs) = omega (arith, length-le-overlay zero vs xs)
length-le-overlay (suc n) (v ∷ vs) (x ∷ xs) = omega (arith, length-le-overlay n (v ∷ vs) xs)

pub block_below : (n m b : ℕ) → n < m → n * b + b ≤ m * b
block_below n m b h = omega (arith, mul-le-mul_right b h)

blocks_apart : (n m b : ℕ) → n ≢ m → (n * b + b ≤ m * b) ⊎ (m * b + b ≤ n * b)
blocks_apart n m b ne = elim (dec_lt n m) [
  | yes h ↦ inl (block_below n m b h)
  | no h ↦ inr (block_below m n b (omega arith))
]

block_kept :
    (n m b : ℕ) (vs xs : List ℕ)
    → n ≢ m
    → length vs ≡ b
    → m * b + b ≤ length xs
    → read_at (m * b) b (overlay (n * b) vs xs) ≡ read_at (m * b) b xs
block_kept n m b vs xs ne l i = elim (blocks_apart n m b ne) [
  | inl h ↦ read_at-overlay_below (m * b) b (n * b) vs xs (omega arith) i
  | inr h ↦ read_at-overlay_above (m * b) b (n * b) vs xs h i
]

-- Writing a block of a usable file leaves what is read from every other block inside it, below 2 ^ 31
-- and with pages of the size of a block.
pub read_page-write_page_other :
    (fm : FileMgr) (f : Text) (xs : List ℕ) (b n m : ℕ) (p q : Page)
    → Holds fm f xs
    → fm.block_size ≡ pos b
    → n * b < 2 ^ 31
    → m * b + b ≤ length xs
    → length xs < 2 ^ 31
    → n ≢ m
    → length p.buffer ≡ b
    → length q.buffer ≡ b
    → (read_page (block f m) q (write_page (block f n) p fm).1).0 ≡ (read_page (block f m) q fm).0
read_page-write_page_other fm f xs b n m p q h e r i u ne l k =
    let (done, holds) = write_page-Holds fm f xs b n p h e r l in
    let new =
      read_page-Holds (write_page (block f n) p fm).1 f _ b m q holds
        (write_page-block_size fm f n b p e ∙ e) (omega arith) k
        (omega (arith, length-le-overlay (n * b) p.buffer xs)) in
    let old = read_page-Holds fm f xs b m q h e (omega arith) k i in
    new.0
    ∙ ap (λ (ys : List ℕ). ok (record { buffer = ys })) (block_kept n m b p.buffer xs ne l i)
    ∙ sym old.0

-- Writing to a file leaves what every other usable file holds.
pub write_page-Holds_other :
    (fm : FileMgr) (f g : Text) (b n : ℕ) (p : Page) (ys : List ℕ)
    → fm.block_size ≡ pos b
    → f ≢ g
    → Holds fm g ys
    → Holds (write_page (block f n) p fm).1 g ys
write_page-Holds_other fm f g b n p ys e ne h =
    rw (write_page-eq fm f n b p e) (with_handler-Holds_other fm f g _ ys ne h)

-- A read or a write of a block of the file, with a page.
pub data Access : Type 0 where
  reads writes : ℕ → Page → Access

abbrev pub AllFit : ℕ → List Access → Type 0
AllFit b [] = Unit {0}
AllFit b (reads m q ∷ l) = (m * b < 2 ^ 31) × (length q.buffer ≡ b) × AllFit b l
AllFit b (writes m q ∷ l) = (m * b < 2 ^ 31) × (length q.buffer ≡ b) × AllFit b l

-- Each of the calls throws, one after the other.
abbrev pub AllThrow : Text → List Access → FileMgr → Type 0
AllThrow f [] fm = Unit {0}
AllThrow f (reads m q ∷ l) fm =
    ((read_page (block f m) q fm).0 ≡ err io_error) × AllThrow f l (read_page (block f m) q fm).1
AllThrow f (writes m q ∷ l) fm =
    ((write_page (block f m) q fm).0 ≡ err io_error) × AllThrow f l (write_page (block f m) q fm).1

-- A handler that has failed refuses every read and every write.
read_page_failed :
    (fm : FileMgr) (f : Text) (b m : ℕ) (q : Page) (s : Stream)
    → fm.block_size ≡ pos b
    → get_file_handler fm f ≡ ok s
    → s.fail ≡ true
    → m * b < 2 ^ 31
    → length q.buffer ≡ b
    → (t : Stream) × (read_page (block f m) q fm ≡ (err io_error, put_handler fm f t))
      × (t.fail ≡ true)
read_page_failed fm f b m q s e g d r l =
    let (threw, still) = read_failed b (m * b) q s d in
    let seen =
      read_page-eq fm f m b q e
      ∙ with_handler-Holds fm f (read_block (pos b) (pos m) q) s g
      ∙ ap (λ (x : Result Page × Stream). (x.0, put_handler fm f x.1))
          (read_block-start b m q s r l) in
    let t = (check_read q (read b q.buffer (seekg (pos (m * b)) s))).1 in
    (t, seen ∙ ap (λ (x : Result Page). (x, put_handler fm f t)) threw, still)

write_page_failed :
    (fm : FileMgr) (f : Text) (b m : ℕ) (q : Page) (s : Stream)
    → fm.block_size ≡ pos b
    → get_file_handler fm f ≡ ok s
    → s.fail ≡ true
    → m * b < 2 ^ 31
    → length q.buffer ≡ b
    → (t : Stream) × (write_page (block f m) q fm ≡ (err io_error, put_handler fm f t))
      × (t.fail ≡ true)
write_page_failed fm f b m q s e g d r l =
    let (threw, still, same) = written_failed q.buffer (m * b) s d in
    let seen =
      write_page-eq fm f m b q e
      ∙ with_handler-Holds fm f (write_block (pos b) (pos m) q) s g
      ∙ ap (λ (x : Result (Unit {0}) × Stream). (x.0, put_handler fm f x.1))
          (write_block-start b m q s r l) in
    let t = (check_write tt (write q.buffer (seekp (pos (m * b)) s))).1 in
    (t, seen ∙ ap (λ (x : Result (Unit {0})). (x, put_handler fm f t)) threw, still)

all_failed :
    (f : Text) (b : ℕ) (l : List Access) (fm : FileMgr) (s : Stream)
    → fm.block_size ≡ pos b
    → get_file_handler fm f ≡ ok s
    → s.fail ≡ true
    → AllFit b l
    → AllThrow f l fm
all_failed f b [] fm s e g d h = tt
all_failed f b (reads m q ∷ l) fm s e g d (r, k, h) =
    let (t, seen, still) = read_page_failed fm f b m q s e g d r k in
    rw seen (
      refl,
      all_failed f b l (put_handler fm f t) t (put_handler-block_size fm f t ∙ e)
          (get_file_handler-put_handler_self fm f t) still h,
    )
all_failed f b (writes m q ∷ l) fm s e g d (r, k, h) =
    let (t, seen, still) = write_page_failed fm f b m q s e g d r k in
    rw seen (
      refl,
      all_failed f b l (put_handler fm f t) t (put_handler-block_size fm f t ∙ e)
          (get_file_handler-put_handler_self fm f t) still h,
    )

-- With pages of the size of a block: a read that reaches past the end of a usable file gives a page
-- of zeros and leaves `failbit` set, which nothing clears: every later read and write of a block of that
-- file throws, also of a block that is there, in any order and any number.
pub read_page_past_end :
    (fm : FileMgr) (f : Text) (xs : List ℕ) (b n : ℕ) (p : Page) (later : List Access)
    → Holds fm f xs
    → fm.block_size ≡ pos b
    → 0 < b
    → n * b < 2 ^ 31
    → length p.buffer ≡ b
    → AllFit b later
    → length xs < n * b + b
    → let r = read_page (block f n) p fm in
      (r.0 ≡ ok (record { buffer = replicate b 0 })) × AllThrow f later r.1
read_page_past_end fm f xs b n p later h e z r l fits short =
    let s = h.stream in
    let last = check_read p (read b p.buffer (seekg (pos (n * b)) s)) in
    let past = read_past b (n * b) p s h.sound z (rw h.content short) in
    let first : read_page (block f n) p fm ≡ (last.0, put_handler fm f last.1) =
      read_page-eq fm f n b p e
      ∙ with_handler-Holds fm f _ s h.handler
      ∙ ap (λ (r : Result Page × Stream). (r.0, put_handler fm f r.1))
          (read_block-start b n p s r l) in
    let again =
      all_failed f b later (put_handler fm f last.1) last.1 (put_handler-block_size fm f last.1 ∙ e)
        (get_file_handler-put_handler_self fm f last.1) past.1 fits in
    rw first (rw l at past.0, again)
