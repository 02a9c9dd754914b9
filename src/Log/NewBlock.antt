-- ===== src/Log/NewBlock.antt =====
-- A block that is full is written, and a new one is started behind it.
use myc_db.Prelude.{
  ℕ, zero, suc, ◌+◌, ◌*◌, ◌%◌, ◌≤◌, ◌<◌, ◌^◌, ◌≡◌, ◌≢◌, refl, sym, ap, subst, ◌∙◌, List, [], ◌∷◌,
  ◌++◌, arith, length, length-append, length-replicate, replicate, read_at, write_at,
  length-write_at, pos, ok,
}
use myc_db.File.Page.{Page, get_int, set_int, encode_int}
use myc_db.File.Page.RoundTrip.{get_int-written}
use myc_db.File.Stream.{overlay}
use myc_db.File.Stream.Blocks.{read_at-overlay_above, length-overlay_inside}
use myc_db.File.Manager
use myc_db.File.Manager.{FileMgr, write_page}
use myc_db.File.Manager.Handlers.{Holds}
use myc_db.File.Manager.Healthy.{block, write_page-Holds}
use myc_db.File.Manager.Laws.{
  append-Holds, append-block_size, write_page-block_size, read_at-overlay_whole,
}
use myc_db.File.Manager.Frame.{block_below}
use myc_db.Log.Manager.{LogStore, start_block, aligned_boundary}
use myc_db.Log.Invariant.{IsLog, Bounded, Blocks}

-- The page of a block with no record.
pub empty_page : Page → ℕ → Page
empty_page p b = record { buffer = write_at 0 (encode_int (pos b)) p.buffer }

aligned_boundary-words : (b : ℕ) → b % 4 ≡ 0 → b < 2 ^ 31 → aligned_boundary (pos b) ≡ pos b
aligned_boundary-words b w h = ground arith

set_int-empty :
    (p : Page) (b : ℕ)
    → 4 ≤ length p.buffer
    → length p.buffer < 2 ^ 31
    → set_int p (pos 0) (pos b) ≡ ok (empty_page p b)
unfolding set_int empty_page
set_int-empty p b h t = ground arith

empty_page-top :
    (p : Page) (b : ℕ)
    → 4 ≤ b
    → b < 2 ^ 31
    → length p.buffer ≡ b
    → get_int (empty_page p b) (pos 0) ≡ ok (pos b)
unfolding empty_page
empty_page-top p b h t l =
    get_int-written p (empty_page p b) 0 (pos b) (omega arith) (omega arith) refl (omega arith) refl

empty_page-Bounded :
    (p : Page) (b : ℕ) → 4 ≤ b → b < 2 ^ 31 → length p.buffer ≡ b → Bounded (empty_page p b) b []
empty_page-Bounded p b h t l = record {
  start = b;
  top = empty_page-top p b h t l;
  low = h;
  stored = refl;
}

-- The three states of the file manager: the old page written, a block appended, the new page written.
module _ (s : LogStore) (b k : ℕ) where
  abbrev fm₁ : FileMgr
  fm₁ = (write_page (block s.lm.log_file k) s.lm.log_page s.fm).1

  abbrev fm₂ : FileMgr
  fm₂ = (Manager.append s.lm.log_file fm₁).1

  abbrev fm₃ : FileMgr
  fm₃ = (write_page (block s.lm.log_file (suc k)) (empty_page s.lm.log_page b) fm₂).1

  abbrev pub with_block : LogStore
  with_block = record s {
    fm = fm₃;
    lm = record s.lm {
      log_page = empty_page s.lm.log_page b;
      cur_blk = block s.lm.log_file (suc k);
      last_saved_lsn = s.lm.latest_lsn;
    };
  }

-- What a start of a block needs of the files.
record Wrote (s : LogStore) (b k : ℕ) (bytes : List ℕ) : Type 0 where
  flushed : (write_page (block s.lm.log_file k) s.lm.log_page s.fm).0 ≡ ok tt
  width₁ : (fm₁ s b k).block_size ≡ pos b
  added : (Manager.append s.lm.log_file (fm₁ s b k)).0 ≡ ok (block s.lm.log_file (suc k))
  width₂ : (fm₂ s b k).block_size ≡ pos b
  stored :
      (write_page (block s.lm.log_file (suc k)) (empty_page s.lm.log_page b) (fm₂ s b k)).0 ≡ ok tt
  file : Holds (fm₃ s b k) s.lm.log_file bytes

-- The bytes of the file then.
abbrev new_bytes : LogStore → ℕ → ℕ → List ℕ → List ℕ
new_bytes s b k bytes =
    overlay (suc k * b) (empty_page s.lm.log_page b).buffer
      (overlay (k * b) s.lm.log_page.buffer bytes ++ replicate b 0)

length-empty_page : (p : Page) (b : ℕ) → length (empty_page p b).buffer ≡ length p.buffer
unfolding empty_page
length-empty_page p b = length-write_at 0 (encode_int (pos b)) p.buffer

pub length-flushed :
    (s : LogStore) (b k : ℕ) (old cur : List (List ℕ)) (l : IsLog s b k old cur)
    → length (overlay (k * b) s.lm.log_page.buffer l.bytes) ≡ suc k * b
length-flushed s b k old cur l =
    length-overlay_inside (k * b) s.lm.log_page.buffer l.bytes (omega (arith, l.size, l.whole))
    ∙ l.whole

IsLog-Wrote :
    (s : LogStore) (b k : ℕ) (old cur : List (List ℕ))
    → (l : IsLog s b k old cur) → 0 < b
    → suc (suc k) * b < 2 ^ 31
    → Wrote s b k (new_bytes s b k l.bytes)
IsLog-Wrote s b k old cur l z r =
    let f = s.lm.log_file in
    let w = write_page-Holds s.fm f l.bytes b k s.lm.log_page l.file l.width (omega arith) l.size in
    let e₁ = write_page-block_size s.fm f k b s.lm.log_page l.width ∙ l.width in
    let a =
      append-Holds (fm₁ s b k) f _ b (suc k) w.1 e₁ z (omega arith)
        (length-flushed s b k old cur l) in
    let e₂ = append-block_size (fm₁ s b k) f b e₁ ∙ e₁ in
    let v =
      write_page-Holds (fm₂ s b k) f _ b (suc k) (empty_page s.lm.log_page b) a.1 e₂ (omega arith)
        (length-empty_page s.lm.log_page b ∙ l.size) in
    record { flushed = w.0; width₁ = e₁; added = a.0; width₂ = e₂; stored = v.0; file = v.1 }

pub start_block_lem :
    (s : LogStore) (b k : ℕ) (old cur : List (List ℕ))
    → IsLog s b k old cur
    → 4 ≤ b
    → suc (suc k) * b < 2 ^ 31
    → start_block s ≡ (ok (pos b), with_block s b k)
unfolding start_block
start_block_lem s b k old cur l h r =
    let w = IsLog-Wrote s b k old cur l (omega arith) r in
    let top = empty_page-top s.lm.log_page b h (omega arith) l.size in
    rw (
      l.here,
      w.flushed,
      w.added,
      w.width₁,
      aligned_boundary-words b l.words (omega arith),
      set_int-empty s.lm.log_page b (omega (arith, l.size)) (omega (arith, l.size)),
      w.stored,
      top,
    )

read_at-append :
    (start n : ℕ) (xs ys : List ℕ)
    → start + n ≤ length xs
    → read_at start n (xs ++ ys) ≡ read_at start n xs
read_at-append zero zero xs ys h = refl
read_at-append zero (suc n) [] ys h = absurd (omega arith)
read_at-append zero (suc n) (x ∷ xs) ys h = ap (◌∷◌ x) (read_at-append zero n xs ys (omega arith))
read_at-append (suc a) zero [] ys h = absurd (omega arith)
read_at-append (suc a) (suc n) [] ys h = absurd (omega arith)
read_at-append (suc a) n (x ∷ xs) ys h = read_at-append a n xs ys (omega arith)

-- The blocks up to the old one are those of the file after the flush.
new_bytes-read :
    (s : LogStore) (b k m : ℕ) (old cur : List (List ℕ)) (l : IsLog s b k old cur)
    → m + b ≤ suc k * b
    → read_at m b (new_bytes s b k l.bytes)
      ≡ read_at m b (overlay (k * b) s.lm.log_page.buffer l.bytes)
new_bytes-read s b k m old cur l h =
    let flushed = overlay (k * b) s.lm.log_page.buffer l.bytes in
    let e = length-flushed s b k old cur l in
    read_at-overlay_above m b (suc k * b) (empty_page s.lm.log_page b).buffer
      (flushed ++ replicate b 0) h (omega (arith, length-append flushed (replicate b 0)))
    ∙ read_at-append m b flushed (replicate b 0) (omega arith)

length-new_bytes :
    (s : LogStore) (b k : ℕ) (old cur : List (List ℕ)) (l : IsLog s b k old cur)
    → length (new_bytes s b k l.bytes) ≡ suc (suc k) * b
length-new_bytes s b k old cur l =
    let flushed = overlay (k * b) s.lm.log_page.buffer l.bytes in
    let e = length-flushed s b k old cur l in
    let t : length (flushed ++ replicate b 0) ≡ suc (suc k) * b =
      omega (arith, length-append flushed (replicate b 0), length-replicate {A = ℕ} b 0) in
    length-overlay_inside (suc k * b) (empty_page s.lm.log_page b).buffer (flushed ++ replicate b 0)
      (omega (arith, length-empty_page s.lm.log_page b, l.size))
    ∙ t

pub Blocks-agree :
    (xs ys : List ℕ) (b k : ℕ) (rs : List (List ℕ))
    → ((j : ℕ) → j < k → read_at (j * b) b ys ≡ read_at (j * b) b xs)
    → Blocks xs b k rs
    → Blocks ys b k rs
Blocks-agree xs ys b zero rs e s = s
Blocks-agree xs ys b (suc k) rs e (here, rest, split, ne, page, below) = (
  here,
  rest,
  split,
  ne,
  subst (λ (zs : List ℕ). Bounded (record { buffer = zs }) b here) (sym (e k (omega arith))) page,
  Blocks-agree xs ys b k rest (λ j h. e j (omega arith)) below,
)

-- The new block is behind the old one, which has kept the records of the page.
pub with_block-IsLog :
    (s : LogStore) (b k : ℕ) (old cur : List (List ℕ))
    → IsLog s b k old cur
    → cur ≢ []
    → 4 ≤ b
    → suc (suc k) * b < 2 ^ 31
    → IsLog (with_block s b k) b (suc k) (cur ++ old) []
with_block-IsLog s b k old cur l ne h r =
    let w = IsLog-Wrote s b k old cur l (omega arith) r in
    let page = s.lm.log_page.buffer in
    let kept : read_at (k * b) b (new_bytes s b k l.bytes) ≡ page =
      new_bytes-read s b k (k * b) old cur l (omega arith)
      ∙ read_at-overlay_whole (k * b) b page l.bytes l.size in
    let same : (j : ℕ)
        → j < k
        → read_at (j * b) b (new_bytes s b k l.bytes) ≡ read_at (j * b) b l.bytes =
      λ j h.
        new_bytes-read s b k (j * b) old cur l (omega (arith, block_below j k b h))
        ∙ read_at-overlay_above (j * b) b (k * b) page l.bytes (block_below j k b h)
            (omega (arith, l.whole, block_below j k b h)) in
    record {
      width =
          write_page-block_size (fm₂ s b k) s.lm.log_file (suc k) b (empty_page s.lm.log_page b)
            w.width₂
          ∙ w.width₂;
      words = l.words;
      bytes = new_bytes s b k l.bytes;
      file = w.file;
      whole = length-new_bytes s b k old cur l;
      range = r;
      here = refl;
      size = length-empty_page s.lm.log_page b ∙ l.size;
      page = empty_page-Bounded s.lm.log_page b h (omega arith) l.size;
      older = (
        cur,
        old,
        refl,
        ne,
        subst (λ (zs : List ℕ). Bounded (record { buffer = zs }) b cur) (sym kept) l.page,
        Blocks-agree l.bytes (new_bytes s b k l.bytes) b k old same l.older,
      );
    }
