-- ===== src/Log/Append.antt =====
-- A record that is appended to a page of the log with room for it.
use myc_db.Prelude.{
  ℕ, zero, suc, ◌+◌, ◌%◌, ◌≤◌, ◌<◌, ◌^◌, ◌≡◌, refl, ◌∙◌, List, [], ◌∷◌, arith, length, drop,
  write_at, length-write_at, pos, ◌+ℤ◌, ◌-ℤ◌, ltb_ℤ, false, runtime, ok, guard,
}
use myc_db.File.Page.{Page, get_int, get_bytes, set_int, set_bytes, encode_int, to_int}
use myc_db.File.Page.RoundTrip.{get_int-written, get_bytes-written}
use myc_db.Log.Records.{Stored, Agree, Stored-Agree, Agree-get_bytes}
use myc_db.Log.Manager.{LogStore, append, place_record, is_aligned}

drop-write_at_below :
    (start at' : ℕ) (vs xs : List ℕ)
    → at' + length vs ≤ start
    → drop start (write_at at' vs xs) ≡ drop start xs
drop-write_at_below start zero [] xs h = refl
drop-write_at_below start zero (v ∷ vs) [] h = refl
drop-write_at_below zero zero (v ∷ vs) (x ∷ xs) h = absurd (omega arith)
drop-write_at_below (suc a) zero (v ∷ vs) (x ∷ xs) h =
    drop-write_at_below a zero vs xs (omega arith)
drop-write_at_below start (suc b) vs [] h = refl
drop-write_at_below zero (suc b) vs (x ∷ xs) h = absurd (omega arith)
drop-write_at_below (suc a) (suc b) vs (x ∷ xs) h = drop-write_at_below a b vs xs (omega arith)

-- The page with the record at `n` and with the boundary set to `n`.
stored_page : Page → ℕ → List ℕ → Page
stored_page p n r = record {
  buffer = write_at (n + 4) r (write_at n (encode_int (pos (length r))) p.buffer);
}

pub placed : Page → ℕ → List ℕ → Page
unfolding stored_page
placed p n r = record { buffer = write_at 0 (encode_int (pos n)) (stored_page p n r).buffer }

-- Where a record fits: below the boundary and above the word of the boundary.
pub record Fits (p : Page) (n : ℕ) (r : List ℕ) : Type 0 where
  pub aligned : n % 4 ≡ 0
  pub above : 4 ≤ n
  pub inside : n + 4 + length r ≤ length p.buffer
  pub small : length p.buffer < 2 ^ 31

set_bytes-stored :
    (p : Page) (n : ℕ) (r : List ℕ) → Fits p n r → set_bytes p (pos n) r ≡ ok (stored_page p n r)
unfolding set_bytes stored_page
set_bytes-stored p n r f = ground arith

length-stored :
    (p : Page) (n : ℕ) (r : List ℕ) → length (stored_page p n r).buffer ≡ length p.buffer
unfolding stored_page
length-stored p n r =
    length-write_at (n + 4) r _ ∙ length-write_at n (encode_int (pos (length r))) p.buffer

set_int-placed :
    (p : Page) (n : ℕ) (r : List ℕ)
    → Fits p n r
    → set_int (stored_page p n r) (pos 0) (pos n) ≡ ok (placed p n r)
unfolding set_int placed
set_int-placed p n r f = ground (arith, length-stored p n r)

pub length-placed : (p : Page) (n : ℕ) (r : List ℕ) → length (placed p n r).buffer ≡ length p.buffer
unfolding placed
length-placed p n r = length-write_at 0 (encode_int (pos n)) _ ∙ length-stored p n r

pub get_int-placed :
    (p : Page) (n : ℕ) (r : List ℕ) → Fits p n r → get_int (placed p n r) (pos 0) ≡ ok (pos n)
unfolding placed
get_int-placed p n r f =
    get_int-written (stored_page p n r) (placed p n r) 0 (pos n) (omega arith) (omega arith) refl
      (omega (arith, length-stored p n r)) refl

placed-Agree : (p : Page) (n : ℕ) (r : List ℕ) → 4 ≤ n → Agree (stored_page p n r) (placed p n r) n
unfolding placed encode_int
placed-Agree p n r h = record {
  size = length-write_at 0 (encode_int (pos n)) (stored_page p n r).buffer;
  rest = drop-write_at_below n 0 (encode_int (pos n)) (stored_page p n r).buffer h;
}

stored-Agree : (p : Page) (n : ℕ) (r : List ℕ) → Agree p (stored_page p n r) (n + (4 + length r))
unfolding stored_page encode_int
stored-Agree p n r = record {
  size = length-stored p n r;
  rest =
      drop-write_at_below _ (n + 4) r (write_at n (encode_int (pos (length r))) p.buffer)
        (omega arith)
      ∙ drop-write_at_below _ n (encode_int (pos (length r))) p.buffer (omega arith);
}

get_bytes-stored :
    (p : Page) (n : ℕ) (r : List ℕ) → Fits p n r → get_bytes (stored_page p n r) (pos n) ≡ ok r
unfolding stored_page
get_bytes-stored p n r f =
    get_bytes-written p (stored_page p n r) n r f.aligned f.small f.inside refl

-- The records on the page are the new one and those that were there.
pub Stored-placed :
    (p : Page) (n : ℕ) (r : List ℕ) (end : ℕ) (rs : List (List ℕ))
    → Fits p n r
    → Stored p (n + (4 + length r)) end rs
    → Stored (placed p n r) n end (r ∷ rs)
Stored-placed p n r end rs f s = (
  Agree-get_bytes (stored_page p n r) (placed p n r) n n (placed-Agree p n r f.above) (omega arith)
      ∙ get_bytes-stored p n r f,
  f.aligned,
  Stored-Agree (stored_page p n r) (placed p n r) n (n + (4 + length r)) end rs
      (placed-Agree p n r f.above) (omega arith)
      (Stored-Agree p (stored_page p n r) (n + (4 + length r)) (n + (4 + length r)) end rs
        (stored-Agree p n r) (omega arith) s),
)

-- `place_record` puts the record on the page and counts it.
pub place_record_lem :
    (s : LogStore) (n : ℕ) (r : List ℕ)
    → Fits s.lm.log_page n r
    → place_record r (pos n) s ≡ (
      ok (s.lm.latest_lsn +ℤ pos 1),
      record s {
        lm = record s.lm {
          log_page = placed s.lm.log_page n r;
          latest_lsn = s.lm.latest_lsn +ℤ pos 1;
        };
      },
    )
unfolding place_record
place_record_lem s n r f =
    rw (guarded, set_bytes-stored s.lm.log_page n r f, set_int-placed s.lm.log_page n r f)
  where
    guarded : guard (is_aligned (pos n)) runtime ≡ ok tt
    guarded = ground (arith, f.aligned)

pub rec_pos_lem : (n k : ℕ) → k < 2 ^ 31 → pos (n + (4 + k)) -ℤ (to_int k +ℤ pos 4) ≡ pos n
rec_pos_lem n k h = ground arith

has_room_lem : (n : ℕ) → 4 ≤ n → ltb_ℤ (pos n) (pos 4) ≡ false
has_room_lem n h = ground arith

-- A record that fits below the boundary goes on the current page, gets the next number, and no file
-- is touched.
pub append_room :
    (s : LogStore) (n : ℕ) (r : List ℕ)
    → get_int s.lm.log_page (pos 0) ≡ ok (pos (n + (4 + length r)))
    → Fits s.lm.log_page n r
    → append r s ≡ (
      ok (s.lm.latest_lsn +ℤ pos 1),
      record s {
        lm = record s.lm {
          log_page = placed s.lm.log_page n r;
          latest_lsn = s.lm.latest_lsn +ℤ pos 1;
        };
      },
    )
unfolding append
append_room s n r g f =
    rw (g, rec_pos_lem n (length r) (omega (arith, f)), has_room_lem n f.above)
      (rw (rec_pos_lem n (length r) (omega (arith, f))) (place_record_lem s n r f))
