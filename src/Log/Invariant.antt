-- ===== src/Log/Invariant.antt =====
-- The log as the list of its records, newest first: the current page, and the blocks before it.
use myc_db.Prelude.{
  ℕ, zero, suc, ◌+◌, ◌*◌, ◌%◌, ◌≤◌, ◌<◌, ◌^◌, ◌≡◌, ◌≢◌, ◌∙◌, List, [], ◌∷◌, ◌++◌, arith, length,
  read_at, pos, ◌+ℤ◌, ok,
}
use myc_db.File.Page.{Page, get_int}
use myc_db.File.Manager.Handlers.{Holds}
use myc_db.File.Manager.Healthy.{block}
use myc_db.Log.Records.{Stored}
use myc_db.Log.Append.{Fits, placed, length-placed, get_int-placed, Stored-placed}
use myc_db.Log.Manager.{LogStore}

abbrev pub page_at : List ℕ → ℕ → ℕ → Page
page_at xs b k = record { buffer = read_at (k * b) b xs }

-- A page whose boundary word says where its records start.
pub record Bounded (p : Page) (b : ℕ) (rs : List (List ℕ)) : Type 0 where
  pub start : ℕ
  pub top : get_int p (pos 0) ≡ ok (pos start)
  pub low : 4 ≤ start
  pub stored : Stored p start b rs

-- The records of the blocks below `k`, newest first; none of these blocks is empty.
abbrev pub Blocks : List ℕ → ℕ → ℕ → List (List ℕ) → Type 0
Blocks xs b zero rs = rs ≡ []
Blocks xs b (suc k) rs =
    (here : List (List ℕ)) × (rest : List (List ℕ)) × (rs ≡ here ++ rest)
    × (here ≢ [])
    × Bounded (page_at xs b k) b here
    × Blocks xs b k rest

pub record IsLog (s : LogStore) (b k : ℕ) (old cur : List (List ℕ)) : Type 0 where
  pub width : s.fm.block_size ≡ pos b
  pub words : b % 4 ≡ 0
  pub bytes : List ℕ
  pub file : Holds s.fm s.lm.log_file bytes
  pub whole : length bytes ≡ suc k * b
  pub range : suc k * b < 2 ^ 31
  pub here : s.lm.cur_blk ≡ block s.lm.log_file k
  pub size : length s.lm.log_page.buffer ≡ b
  pub page : Bounded s.lm.log_page b cur
  pub older : Blocks bytes b k old

-- Where the records start is a word, not past the end.
pub start-aligned :
    (p : Page) (start b : ℕ) (rs : List (List ℕ)) → b % 4 ≡ 0 → Stored p start b rs → start % 4 ≡ 0
start-aligned p start b [] w s = omega arith
start-aligned p start b (r ∷ rs) w s = s.1

pub start-le : (p : Page) (start b : ℕ) (rs : List (List ℕ)) → Stored p start b rs → start ≤ b
start-le p start b [] s = omega arith
start-le p start b (r ∷ rs) s = omega (arith, start-le p (start + (4 + length r)) b rs s.2)

-- The store after a record has been placed at `n`.
abbrev pub with_record : LogStore → ℕ → List ℕ → LogStore
with_record s n r = record s {
  lm = record s.lm { log_page = placed s.lm.log_page n r; latest_lsn = s.lm.latest_lsn +ℤ pos 1 };
}

pub with_record-IsLog :
    (s : LogStore) (b k n : ℕ) (old cur : List (List ℕ)) (r : List ℕ)
    → (l : IsLog s b k old cur) → Fits s.lm.log_page n r
    → l.page.start ≡ n + (4 + length r)
    → IsLog (with_record s n r) b k old (r ∷ cur)
with_record-IsLog s b k n old cur r l f e = record {
  width = l.width;
  words = l.words;
  bytes = l.bytes;
  file = l.file;
  whole = l.whole;
  range = l.range;
  here = l.here;
  size = length-placed s.lm.log_page n r ∙ l.size;
  page = record {
    start = n;
    top = get_int-placed s.lm.log_page n r f;
    low = f.above;
    stored = Stored-placed s.lm.log_page n r b cur f (rw e at l.page.stored);
  };
  older = l.older;
}

pub Fits-at :
    (s : LogStore) (b k n : ℕ) (old cur : List (List ℕ)) (r : List ℕ)
    → (l : IsLog s b k old cur) → length r % 4 ≡ 0
    → 4 ≤ n
    → l.page.start ≡ n + (4 + length r)
    → Fits s.lm.log_page n r
Fits-at s b k n old cur r l w a e =
    let q = start-aligned s.lm.log_page l.page.start b cur l.words l.page.stored in
    let d = start-le s.lm.log_page l.page.start b cur l.page.stored in
    record {
      aligned = omega (arith, q);
      above = a;
      inside = omega (arith, d, l.size);
      small = omega (arith, l.size, l.range);
    }
