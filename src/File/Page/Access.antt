-- ===== src/File/Page/Access.antt =====
-- Which accesses to a page succeed, and how the others end.
use myc_db.Prelude.{
  ℕ, suc, ◌+◌, ◌%◌, ◌^◌, ◌<◌, ◌≡◌, arith, leb, ◌==◌, if◌then◌else◌, length, read_at, write_at, ℤ,
  pos, negsuc, InInt, out_of_range, unaligned, undefined, Result, ok, err, ◌>>=◌,
}
use myc_db.File.Page.{Page, encode_int, decode_int, get_int, set_int}

-- The four bytes at an offset: where they start, or how the access ends. The offset -4 passes both
-- checks, since `offset + sizeof(int)` is then 0 in `size_t`.
abbrev pub access : Page → ℤ → Result ℕ
access p (pos n) =
    if n % 4 == 0
    then if leb (n + 4) (length p.buffer) then ok n else err out_of_range
    else err unaligned
access p (negsuc n) =
    if n == 3 then err undefined else if suc n % 4 == 0 then err out_of_range else err unaligned

-- On a page below 2 ^ 31 bytes and on every `int` offset `get_int` ends as `access` says, and reads the word there.
pub get_int-access :
    (p : Page) (offset : ℤ)
    → InInt offset
    → length p.buffer < 2 ^ 31
    → get_int p offset ≡ (access p offset >>= λ s. ok (decode_int (read_at s 4 p.buffer)))
unfolding get_int
get_int-access p (pos n) h s = ground arith
get_int-access p (negsuc n) h s = ground arith

-- On a page below 2 ^ 31 bytes and on every `int` offset `set_int` ends as `access` says, and overwrites the word there alone.
pub set_int-access :
    (p : Page) (offset num : ℤ)
    → InInt offset
    → length p.buffer < 2 ^ 31
    → set_int p offset num
      ≡ (access p offset >>= λ s. ok (record { buffer = write_at s (encode_int num) p.buffer }))
unfolding set_int
set_int-access p (pos n) num h s = ground arith
set_int-access p (negsuc n) num h s = ground arith
