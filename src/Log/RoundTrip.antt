-- ===== src/Log/RoundTrip.antt =====
-- What was appended to the log is what its iterator gives back.
use myc_db.Prelude.{
  ℕ, suc, ◌+◌, ◌*◌, ◌≡◌, refl, ap, ◌∙◌, List, ◌++◌, arith, length, replicate, length-replicate,
  read_at, ℤ, pos, ok, Text, some,
}
use myc_db.File.Page.{Page, get_int, make_page}
use myc_db.File.Stream.{overlay}
use myc_db.File.Stream.Blocks.{read_at-overlay_above}
use myc_db.File.Manager.{FileMgr, read_page, write_page}
use myc_db.File.Manager.Handlers.{Holds}
use myc_db.File.Manager.Healthy.{block, write_page-Holds, read_page-Holds}
use myc_db.File.Manager.Laws.{write_page-block_size, read_page-block_size, read_at-overlay_whole}
use myc_db.File.Manager.Frame.{block_below}
use myc_db.Log.Iterator.{LogIterator, make_iterator, read_all}
use myc_db.Log.Manager.{LogStore, iterator}
use myc_db.Log.Invariant.{IsLog, Blocks}
use myc_db.Log.NewBlock.{Blocks-agree, length-flushed}
use myc_db.Log.Replay.{read_all-records, entered, move_to_block-read}

-- A blank page of the size of a block.
abbrev blank : ℕ → Page
blank b = record { buffer = replicate b 0 }

make_page-blank : (z : ℤ) (b : ℕ) → z ≡ pos b → make_page z ≡ ok (blank b)
unfolding make_page
make_page-blank z b e = rw e

make_iterator-read :
    (f : Text) (k b start : ℕ) (fm : FileMgr) (p : Page)
    → fm.block_size ≡ pos b
    → (read_page (block f k) (blank b) fm).0 ≡ ok p
    → get_int p (pos 0) ≡ ok (pos start)
    → make_iterator (block f k) fm
      ≡ (ok (entered (block f k) p start), (read_page (block f k) (blank b) fm).1)
unfolding make_iterator
make_iterator-read f k b start fm p e g t =
    rw (make_page-blank fm.block_size b e)
      (move_to_block-read (entered (block f k) (blank b) 0) (block f k) fm p start g t)

module _ (s : LogStore) (b k : ℕ) (old cur : List (List ℕ)) (l : IsLog s b k old cur) where
  abbrev f : Text
  f = s.lm.log_file

  abbrev flushed : List ℕ
  flushed = overlay (k * b) s.lm.log_page.buffer l.bytes

  abbrev fm' : FileMgr
  fm' = (write_page (block f k) s.lm.log_page s.fm).1

  flushed-Holds : ((write_page (block f k) s.lm.log_page s.fm).0 ≡ ok tt) × Holds fm' f flushed
  flushed-Holds =
      write_page-Holds s.fm f l.bytes b k s.lm.log_page l.file l.width (omega (arith, l.range))
        l.size

  fm'-width : fm'.block_size ≡ pos b
  fm'-width = write_page-block_size s.fm f k b s.lm.log_page l.width ∙ l.width

  flushed-page : read_at (k * b) b flushed ≡ s.lm.log_page.buffer
  flushed-page = read_at-overlay_whole (k * b) b s.lm.log_page.buffer l.bytes l.size

  flushed-read :
      ((read_page (block f k) (blank b) fm').0 ≡ ok s.lm.log_page)
      × Holds (read_page (block f k) (blank b) fm').1 f flushed
  flushed-read =
      let got =
        read_page-Holds fm' f flushed b k (blank b) flushed-Holds.1 fm'-width
          (omega (arith, l.range)) (length-replicate b 0)
          (omega (arith, length-flushed s b k old cur l)) in
      (got.0 ∙ ap (λ (xs : List ℕ). ok (record { buffer = xs })) flushed-page, got.1)

  flushed-Blocks : Blocks flushed b k old
  flushed-Blocks =
      Blocks-agree l.bytes flushed b k old
        (λ j h.
          read_at-overlay_above (j * b) b (k * b) s.lm.log_page.buffer l.bytes (block_below j k b h)
            (omega (arith, l.whole, block_below j k b h)))
        l.older

  made : make_iterator (block f k) fm' ≡ (
    ok (entered (block f k) s.lm.log_page l.page.start),
    (read_page (block f k) (blank b) fm').1,
  )
  made = make_iterator-read f k b l.page.start fm' s.lm.log_page fm'-width flushed-read.0 l.page.top

  iterator-start :
      ((iterator s).0 ≡ ok (entered (block f k) s.lm.log_page l.page.start))
      × ((iterator s).1.fm ≡ (read_page (block f k) (blank b) fm').1)
  unfolding iterator
  iterator-start = rw (l.here, flushed-Holds.0, made) (refl, refl)

-- The iterator over a well-formed log gives its records, the newest first, and stops in one round
-- more than there are records.
pub read_all-iterator :
    (s : LogStore) (b k : ℕ) (old cur : List (List ℕ))
    → IsLog s b k old cur
    → (it : LogIterator) × ((iterator s).0 ≡ ok it)
      × ((read_all (suc (length cur + length old)) it (iterator s).1.fm).0 ≡ ok (some (cur ++ old)))
read_all-iterator s b k old cur l =
    let (started, files) = iterator-start s b k old cur l in
    (
      entered (block s.lm.log_file k) s.lm.log_page l.page.start,
      started,
      rw files (
          read_all-records (suc (length cur + length old)) _ _ s.lm.log_file
            (flushed s b k old cur l) b k cur old
            (read_page-block_size (fm' s b k old cur l) s.lm.log_file k b (blank b)
                (fm'-width s b k old cur l)
              ∙ fm'-width s b k old cur l)
            (flushed-read s b k old cur l).1 (omega (arith, length-flushed s b k old cur l))
            (omega (arith, length-flushed s b k old cur l, l.range)) (omega (arith, l.range))
            (record {
              block_is = refl;
              at = l.page.start;
              pos_is = refl;
              size = l.size;
              stored = l.page.stored;
            })
            (flushed-Blocks s b k old cur l) (omega arith)),
    )
