-- ===== src/Log/Replay.antt =====
-- The iterator gives back the records of the log, newest first.
use myc_db.Prelude.{
  ℕ, zero, suc, ◌+◌, ◌*◌, ◌≤◌, ◌<◌, ◌^◌, ◌≡◌, refl, ap, ◌∙◌, List, [], ◌∷◌, ◌++◌, arith, length,
  length-append, length-take, length-drop, drop, ℤ, pos, ◌+ℤ◌, ◌-ℤ◌, ◌==ℤ◌, true, false, ok, Text,
  some,
}
use myc_db.File.Page.{Page, get_int, get_bytes, to_int}
use myc_db.File.Block.{BlockId}
use myc_db.File.Manager.{FileMgr, read_page}
use myc_db.File.Manager.Handlers.{Holds}
use myc_db.File.Manager.Healthy.{block, read_page-Holds}
use myc_db.File.Manager.Laws.{read_page-block_size}
use myc_db.Log.Records.{Stored}
use myc_db.Log.Iterator.{LogIterator, move_to_block, has_next, enter_block, next, read_all}
use myc_db.Log.Invariant.{Bounded, Blocks, page_at, start-le}

-- The iterator stands in block `k`, before the records `rs` of its page.
pub record Before (it : LogIterator) (f : Text) (b k : ℕ) (rs : List (List ℕ)) : Type 0 where
  pub block_is : it.block ≡ block f k
  pub at : ℕ
  pub pos_is : it.cur_pos ≡ pos at
  pub size : length it.page.buffer ≡ b
  pub stored : Stored it.page at b rs

-- The iterator after a record.
abbrev past : LogIterator → List ℕ → LogIterator
past it r = record it { cur_pos = it.cur_pos +ℤ (pos 4 +ℤ to_int (length r)) }

Before-end :
    (it : LogIterator) (f : Text) (b k : ℕ) (r : List ℕ) (rs : List (List ℕ))
    → (p : Before it f b k (r ∷ rs)) → p.at + (4 + length r) ≤ b
Before-end it f b k r rs p = start-le it.page (p.at + (4 + length r)) b rs p.stored.2

enter_block-inside :
    (it : LogIterator) (fm : FileMgr) (b c : ℕ)
    → fm.block_size ≡ pos b
    → it.cur_pos ≡ pos c
    → c < b
    → enter_block it fm ≡ (ok it, fm)
unfolding enter_block
enter_block-inside it fm b c e p h = rw (same_test, enter_block)
  where
    same_test : (it.cur_pos ==ℤ fm.block_size) ≡ false
    same_test = rw (e, p) (ground arith)

-- What `next` does once the block is entered.
next-entered :
    (it it' : LogIterator) (fm fm' : FileMgr) (r : List ℕ)
    → enter_block it fm ≡ (ok it', fm')
    → get_bytes it'.page it'.cur_pos ≡ ok r
    → next it fm ≡ (ok (r, past it' r), fm')
unfolding next
next-entered it it' fm fm' r e g = rw (e, g)

next_here :
    (it : LogIterator) (fm : FileMgr) (f : Text) (b k : ℕ) (r : List ℕ) (rs : List (List ℕ))
    → fm.block_size ≡ pos b
    → Before it f b k (r ∷ rs)
    → next it fm ≡ (ok (r, past it r), fm)
next_here it fm f b k r rs e p =
    next-entered it it fm fm r
      (enter_block-inside it fm b p.at e p.pos_is (omega (arith, Before-end it f b k r rs p)))
      (ap (get_bytes it.page) p.pos_is ∙ p.stored.0)

has_next-inside :
    (it : LogIterator) (b c : ℕ) → it.cur_pos ≡ pos c → c < b → has_next it (pos b) ≡ true
unfolding has_next
has_next-inside it b c p h = rw p (ground arith)

has_next-later :
    (it : LogIterator) (b : ℕ) (f : Text) (k : ℕ)
    → it.block ≡ block f (suc k)
    → (size : ℤ) → has_next it size ≡ true
unfolding has_next
has_next-later it b f k e size = rw e (ground arith)

after_record : (c k : ℕ) → k < 2 ^ 31 → pos c +ℤ (pos 4 +ℤ to_int k) ≡ pos (c + (4 + k))
after_record c k h = ground arith

past-Before :
    (it : LogIterator) (f : Text) (b k : ℕ) (r : List ℕ) (rs : List (List ℕ))
    → b < 2 ^ 31
    → Before it f b k (r ∷ rs)
    → Before (past it r) f b k rs
past-Before it f b k r rs h p = record {
  block_is = p.block_is;
  at = p.at + (4 + length r);
  pos_is = rw p.pos_is (after_record p.at (length r) (omega (arith, Before-end it f b k r rs p)));
  size = p.size;
  stored = p.stored.2;
}

-- The rounds of the loop.
read_all-more :
    (fuel : ℕ) (it it' : LogIterator) (fm fm' : FileMgr) (r : List ℕ) (rs : List (List ℕ))
    → has_next it fm.block_size ≡ true
    → next it fm ≡ (ok (r, it'), fm')
    → (read_all fuel it' fm').0 ≡ ok (some rs)
    → (read_all (suc fuel) it fm).0 ≡ ok (some (r ∷ rs))
unfolding read_all
read_all-more fuel it it' fm fm' r rs h n rest = rw (h, n, read_all) (ground arith)

-- At the end of block 0 the loop stops.
read_all-stop :
    (fuel : ℕ) (it : LogIterator) (fm : FileMgr) (f : Text) (b : ℕ)
    → fm.block_size ≡ pos b
    → Before it f b 0 []
    → (read_all (suc fuel) it fm).0 ≡ ok (some [])
unfolding read_all has_next
read_all-stop fuel it fm f b e p = rw (p.block_is, e, p.pos_is, p.stored) (ground arith)

-- The iterator at the start of a block that it has entered.
abbrev pub entered : BlockId → Page → ℕ → LogIterator
entered blk p start = record { block = blk; page = p; cur_pos = pos start; boundary = pos start }

pub move_to_block-read :
    (it : LogIterator) (blk : BlockId) (fm : FileMgr) (p : Page) (start : ℕ)
    → (read_page blk it.page fm).0 ≡ ok p
    → get_int p (pos 0) ≡ ok (pos start)
    → move_to_block it blk fm ≡ (ok (entered blk p start), (read_page blk it.page fm).1)
unfolding move_to_block
move_to_block-read it blk fm p start e t = rw (e, t)

enter_block-end :
    (it : LogIterator) (fm : FileMgr) (f : Text) (b k : ℕ)
    → fm.block_size ≡ pos b
    → Before it f b (suc k) []
    → enter_block it fm ≡ move_to_block it (block f k) fm
unfolding enter_block
enter_block-end it fm f b k e p =
    rw (same_test, enter_block) (ap (λ (blk : BlockId). move_to_block it blk fm) lower)
  where
    same_test : (it.cur_pos ==ℤ fm.block_size) ≡ true
    same_test = rw (e, p.pos_is, p.stored) (ground arith)

    lower : record it.block { blk_num = it.block.blk_num -ℤ pos 1 } ≡ block f k
    lower = rw p.block_is (ground arith)

-- At the end of a later block the iterator enters the one before.
enter_block-below :
    (it : LogIterator) (fm : FileMgr) (f : Text) (xs : List ℕ) (b k : ℕ) (rs : List (List ℕ))
    → fm.block_size ≡ pos b
    → Holds fm f xs
    → suc k * b ≤ length xs
    → length xs < 2 ^ 31
    → Before it f b (suc k) []
    → Bounded (page_at xs b k) b rs
    → (it' : LogIterator) × (fm' : FileMgr) × (enter_block it fm ≡ (ok it', fm'))
      × Before it' f b k rs
      × Holds fm' f xs
      × (fm'.block_size ≡ pos b)
enter_block-below it fm f xs b k rs e h long small p page =
    let got = read_page-Holds fm f xs b k it.page h e (omega arith) p.size (omega arith) in
    (
      entered (block f k) (page_at xs b k) page.start,
      (read_page (block f k) it.page fm).1,
      enter_block-end it fm f b k e p
          ∙ move_to_block-read it (block f k) fm (page_at xs b k) page.start got.0 page.top,
      record {
        block_is = refl;
        at = page.start;
        pos_is = refl;
        size = rw (length-take b (drop (k * b) xs), length-drop (k * b) xs) (omega arith);
        stored = page.stored;
      },
      got.1,
      read_page-block_size fm f k b it.page e ∙ e,
    )

-- With more fuel than records, the loop ends with all of them.
pub read_all-records :
    (fuel : ℕ) (it : LogIterator) (fm : FileMgr) (f : Text) (xs : List ℕ) (b k : ℕ)
    (here rest : List (List ℕ))
    → fm.block_size ≡ pos b
    → Holds fm f xs
    → k * b ≤ length xs
    → length xs < 2 ^ 31
    → b < 2 ^ 31
    → Before it f b k here
    → Blocks xs b k rest
    → length here + length rest < fuel
    → (read_all fuel it fm).0 ≡ ok (some (here ++ rest))
read_all-records zero it fm f xs b k here rest e h long small w p bs lt = absurd (omega arith)
read_all-records (suc fuel) it fm f xs b k (r ∷ rs) rest e h long small w p bs lt =
    read_all-more fuel it (past it r) fm fm r (rs ++ rest)
      (rw e (has_next-inside it b p.at p.pos_is (omega (arith, Before-end it f b k r rs p))))
      (next_here it fm f b k r rs e p)
      (read_all-records fuel (past it r) fm f xs b k rs rest e h long small w
        (past-Before it f b k r rs w p) bs (omega arith))
read_all-records (suc fuel) it fm f xs b zero [] rest e h long small w p bs lt =
    rw bs (read_all-stop fuel it fm f b e p)
read_all-records (suc fuel) it fm f xs b (suc k) [] rest e h long small w p
      ([], below, split, ne, page, bs) lt =
    absurd (ne refl)
read_all-records (suc fuel) it fm f xs b (suc k) [] rest e h long small w p
      (r ∷ rs, below, split, ne, page, bs) lt =
    let (it', fm', en, p', h', e') =
      enter_block-below it fm f xs b k (r ∷ rs) e h (omega arith) small p page in
    let got = next-entered it it' fm fm' r en (ap (get_bytes it'.page) p'.pos_is ∙ p'.stored.0) in
    let enough : length rs + length below < fuel =
      omega (arith, ap length split, length-append (r ∷ rs) below) in
    rw split (
      read_all-more fuel it (past it' r) fm fm' r (rs ++ below)
        (has_next-later it b f k p.block_is fm.block_size) got
        (read_all-records fuel (past it' r) fm' f xs b k rs below e' h' (omega arith) small w
          (past-Before it' f b k r rs w p') bs enough))
