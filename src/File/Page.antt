-- ===== src/File/Page.antt =====
-- A page of bytes: src/libs/dbcore/file/page/page.{h,cpp} and detail/check_int_alignment.h.
-- A byte is a number, `int` is a 4-byte little-endian two's complement word, `size_t` has 64 bits.
-- `undefined` stands for an access outside the buffer that the checks let through.
pub mod Access
pub mod RoundTrip
pub mod Below
use myc_db.Prelude.{
  ℕ, ◌+◌, ◌*◌, ◌/◌, ◌%◌, ◌^◌, ◌≡◌, Bool, true, false, List, [], ◌∷◌, ◌++◌, arith, ltb, leb, ◌==◌,
  if◌then◌else◌, length, read_at, write_at, replicate, ℤ, pos, negsuc, ◌+ℤ◌, in_int, word_of,
  signed, size_mod, size_of, Error, out_of_range, unaligned, runtime, undefined, Result, ok, err,
  ◌>>=◌, ◌>>◌, guard, Text,
}

pub record Page : Type 0 where
  pub buffer : List ℕ

-- `sizeof(int)`, which is also `alignof(int)`.
abbrev pub int_size : ℕ
int_size = 4

-- `memcpy` of an `int` out of and into bytes.
unfoldable pub encode_int : ℤ → List ℕ
encode_int z =
    let w = word_of z in w % 256 ∷ (w / 256) % 256 ∷ (w / 65536) % 256 ∷ (w / 16777216) % 256 ∷ []

unfoldable pub decode_int : List ℕ → ℤ
decode_int (a ∷ b ∷ c ∷ d ∷ _) = signed (a + 256 * b + 65536 * c + 16777216 * d)
decode_int _ = pos 0

-- `page(int block_size)`: a negative size is no size of a vector.
unfoldable pub make_page : ℤ → Result Page
make_page (pos n) = ok (record { buffer = replicate n 0 })
make_page (negsuc n) = err runtime

-- `offset % alignof(int) == 0`, computed in `size_t`.
unfoldable pub check_int_alignment : ℤ → Bool
check_int_alignment offset = size_of offset % int_size == 0

unfoldable pub check_alignment : ℤ → Result (Unit {0})
unfolding check_int_alignment
check_alignment offset = guard (check_int_alignment offset) unaligned

-- `!(offset + sizeof(int) + extra > buffer.size())`, computed in `size_t`.
unfoldable pub has_room : Page → ℤ → ℕ → Bool
has_room p offset extra = leb ((size_of offset + int_size + extra) % size_mod) (length p.buffer)

-- `buffer.data() + offset`.
unfoldable pub address : ℤ → Result ℕ
address (pos n) = ok n
address (negsuc n) = err undefined

unfoldable pub get_int : Page → ℤ → Result ℤ
unfolding check_alignment has_room address decode_int
get_int p offset = do
  check_alignment offset
  guard (has_room p offset 0) out_of_range
  start ← address offset
  ok (decode_int (read_at start int_size p.buffer))

-- An `int` sum: overflow is undefined.
unfoldable pub add_int : ℤ → ℤ → Result ℤ
add_int a b = if in_int (a +ℤ b) then ok (a +ℤ b) else err undefined

unfoldable pub get_bytes : Page → ℤ → Result (List ℕ)
unfolding get_int add_int
get_bytes p offset = do
  guard (has_room p offset 0) out_of_range
  len ← get_int p offset
  end ← add_int offset len
  guard (has_room p end 0) out_of_range
  start ← address offset
  count ← address len
  ok (read_at (start + int_size) count p.buffer)

unfoldable pub get_string : Page → ℤ → Result Text
unfolding get_bytes
get_string p offset = get_bytes p offset

unfoldable pub set_int : Page → ℤ → ℤ → Result Page
unfolding check_alignment has_room address encode_int
set_int p offset num = do
  check_alignment offset
  guard (has_room p offset 0) out_of_range
  start ← address offset
  ok (record { buffer = write_at start (encode_int num) p.buffer })

-- `static_cast<int>` of a `size_t`.
abbrev pub to_int : ℕ → ℤ
to_int n = signed (n % 2 ^ 32)

unfoldable pub set_bytes : Page → ℤ → List ℕ → Result Page
unfolding set_int
set_bytes p offset buf = do
  guard (has_room p offset (length buf)) out_of_range
  q ← set_int p offset (to_int (length buf))
  start ← address offset
  ok (record { buffer = write_at (start + int_size) buf q.buffer })

unfoldable pub set_string : Page → ℤ → Text → Result Page
unfolding set_bytes
set_string p offset str = set_bytes p offset str

-- The bytes that a string of this length takes on a page: a `size_t`, converted to an `int`.
abbrev pub max_len : ℤ → ℤ
max_len strlen = signed (word_of (pos int_size +ℤ strlen))
