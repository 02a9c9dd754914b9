-- ===== src/File/Page/RoundTrip.antt =====
-- What is written on a page is read back, and the rest of the page stays.
use myc_db.Prelude.{
  ℕ, ◌+◌, ◌*◌, ◌/◌, ◌%◌, ◌^◌, ◌≤◌, ◌<◌, ◌≡◌, refl, ap, ◌∙◌, ◌⊎◌, inl, inr, ◌≢◌, arith, length,
  length-write_at, read_at, write_at, read_at-write_at, read_at-write_at_above,
  read_at-write_at_below, ℤ, pos, negsuc, InInt, List, ok, word_of, signed-word_of, word_of-lt,
}
use myc_db.File.Page.{Page, encode_int, decode_int, get_int, set_int, get_bytes, set_bytes}

join_bytes :
    (w : ℕ)
    → w < 2 ^ 32
    → w % 256
        + 256 * ((w / 256) % 256)
        + 65536 * ((w / 65536) % 256)
        + 16777216 * ((w / 16777216) % 256)
      ≡ w
join_bytes w h = omega arith

pub decode_int-encode_int : (z : ℤ) → InInt z → decode_int (encode_int z) ≡ z
unfolding decode_int encode_int
decode_int-encode_int z h = rw (join_bytes (word_of z) (word_of-lt z)) (signed-word_of z h)

length-encode_int : (z : ℤ) → length (encode_int z) ≡ 4
unfolding encode_int
length-encode_int z = refl

-- The facts of a successful `set_int`.
pub set_int-Written :
    (p q : Page) (offset num : ℤ)
    → InInt offset
    → set_int p offset num ≡ ok q
    → (n : ℕ) × (offset ≡ pos n)
      × (n % 4 ≡ 0)
      × (n + 4 ≤ length p.buffer)
      × (q.buffer ≡ write_at n (encode_int num) p.buffer)
unfolding set_int
set_int-Written p q (pos n) num h e = (n, refl, ground arith, ground arith, ground arith)
set_int-Written p q (negsuc n) num h e = ground arith

-- The facts that `get_int` needs.
pub get_int-at :
    (p : Page) (n : ℕ)
    → n < 2 ^ 31
    → n % 4 ≡ 0
    → n + 4 ≤ length p.buffer
    → get_int p (pos n) ≡ ok (decode_int (read_at n 4 p.buffer))
unfolding get_int
get_int-at p n h a b = ground arith

pub set_int-length :
    (p q : Page) (offset num : ℤ)
    → InInt offset
    → set_int p offset num ≡ ok q
    → length q.buffer ≡ length p.buffer
set_int-length p q offset num h e =
    let (n, eo, a, b, w) = set_int-Written p q offset num h e in
    rw w (length-write_at n (encode_int num) p.buffer)

pub get_int-written :
    (p q : Page) (n : ℕ) (num : ℤ)
    → n < 2 ^ 31
    → InInt num
    → n % 4 ≡ 0
    → n + 4 ≤ length p.buffer
    → q.buffer ≡ write_at n (encode_int num) p.buffer
    → get_int q (pos n) ≡ ok num
unfolding encode_int
get_int-written p q n num h k a b w =
    get_int-at q n h a (rw (w, length-write_at n (encode_int num) p.buffer) b)
    ∙ ap (λ (l : List ℕ). ok (decode_int l))
        (ap (read_at n 4) w ∙ read_at-write_at n (encode_int num) p.buffer b)
    ∙ ap ok (decode_int-encode_int num k)

-- An `int` that was stored at an `int` offset is read back.
pub get_int-set_int :
    (p q : Page) (offset num : ℤ)
    → InInt offset
    → InInt num
    → set_int p offset num ≡ ok q
    → get_int q offset ≡ ok num
get_int-set_int p q offset num h k e =
    let (n, eo, a, b, w) = set_int-Written p q offset num h e in
    let inside : InInt (pos n) = rw eo at h in rw eo (get_int-written p q n num inside.0 k a b w)

get_int-same :
    (p q : Page) (n : ℕ) (other num : ℤ)
    → InInt other
    → pos n ≢ other
    → n % 4 ≡ 0
    → q.buffer ≡ write_at n (encode_int num) p.buffer
    → length q.buffer ≡ length p.buffer
    → get_int q other ≡ get_int p other
unfolding get_int
get_int-same p q n (negsuc m) num k ne a w l = ground arith
get_int-same p q n (pos m) num k ne a w l = ground (
  arith,
  read_at-write_at_above m 4 n (encode_int num) p.buffer,
  read_at-write_at_below m 4 n (encode_int num) p.buffer,
  length-encode_int num,
)

-- An `int` that was stored leaves the outcome of reading at every other offset as it was.
pub get_int-set_int_other :
    (p q : Page) (offset other num : ℤ)
    → InInt offset
    → InInt other
    → offset ≢ other
    → set_int p offset num ≡ ok q
    → get_int q other ≡ get_int p other
get_int-set_int_other p q offset other num h k ne e =
    let (n, eo, a, b, w) = set_int-Written p q offset num h e in
    let l = set_int-length p q offset num h e in get_int-same p q n other num k (rw eo at ne) a w l

-- The facts of a successful `set_bytes`, at an address and at an offset.
pub set_bytes-at :
    (p q : Page) (n : ℕ) (buf : List ℕ)
    → n < 2 ^ 31
    → length buf < 2 ^ 31
    → length p.buffer < 2 ^ 31
    → set_bytes p (pos n) buf ≡ ok q
    → (n % 4 ≡ 0)
      × (n + 4 + length buf ≤ length p.buffer)
      × (q.buffer ≡ write_at (n + 4) buf (write_at n (encode_int (pos (length buf))) p.buffer))
unfolding set_bytes
set_bytes-at p q n buf h t s e = (ground arith, ground arith, ground arith)

pub set_bytes-Written :
    (p q : Page) (offset : ℤ) (buf : List ℕ)
    → InInt offset
    → length buf < 2 ^ 31
    → length p.buffer < 2 ^ 31
    → set_bytes p offset buf ≡ ok q
    → (n : ℕ) × (offset ≡ pos n)
      × (n % 4 ≡ 0)
      × (n + 4 + length buf ≤ length p.buffer)
      × (q.buffer ≡ write_at (n + 4) buf (write_at n (encode_int (pos (length buf))) p.buffer))
unfolding set_bytes
set_bytes-Written p q (pos n) buf h t s e =
    let (a, b, w) = set_bytes-at p q n buf h.0 t s e in (n, refl, a, b, w)
set_bytes-Written p q (negsuc n) buf h t s e = ground arith

-- The facts that `get_bytes` needs.
pub get_bytes-at :
    (p : Page) (n k : ℕ)
    → length p.buffer < 2 ^ 31
    → n + 4 + k ≤ length p.buffer
    → get_int p (pos n) ≡ ok (pos k)
    → get_bytes p (pos n) ≡ ok (read_at (n + 4) k p.buffer)
unfolding get_bytes
get_bytes-at p n k s b e = rw e (ground arith)

-- A word is read alike on two pages of one size that agree on its four bytes.
pub get_int-frame :
    (p q : Page) (n : ℕ)
    → length q.buffer ≡ length p.buffer
    → read_at n 4 q.buffer ≡ read_at n 4 p.buffer
    → get_int q (pos n) ≡ get_int p (pos n)
unfolding get_int
get_int-frame p q n l e = ground arith

-- The two writes of `set_bytes`, read back.
pub get_bytes-written :
    (p q : Page) (n : ℕ) (buf : List ℕ)
    → n % 4 ≡ 0
    → length p.buffer < 2 ^ 31
    → n + 4 + length buf ≤ length p.buffer
    → q.buffer ≡ write_at (n + 4) buf (write_at n (encode_int (pos (length buf))) p.buffer)
    → get_bytes q (pos n) ≡ ok buf
get_bytes-written p q n buf a s b w =
    let words = write_at n (encode_int (pos (length buf))) p.buffer in
    let mid : Page = record { buffer = words } in
    let l = length-write_at n (encode_int (pos (length buf))) p.buffer in
    let lq : length q.buffer ≡ length p.buffer = rw (w, length-write_at (n + 4) buf words) l in
    let head : get_int mid (pos n) ≡ ok (pos (length buf)) =
      get_int-written p mid n (pos (length buf)) (omega arith) (omega arith) a (omega arith) refl in
    let same : get_int q (pos n) ≡ get_int mid (pos n) =
      get_int-frame mid q n (rw (w, length-write_at (n + 4) buf words))
        (ap (read_at n 4) w ∙ read_at-write_at_above n 4 (n + 4) buf words (omega arith)) in
    get_bytes-at q n (length buf) (omega arith) (omega arith) (same ∙ head)
    ∙ ap ok (ap (read_at (n + 4) (length buf)) w ∙ read_at-write_at (n + 4) buf words (omega arith))

-- Bytes that were stored on a page below 2 ^ 31 bytes are read back.
pub get_bytes-set_bytes :
    (p q : Page) (offset : ℤ) (buf : List ℕ)
    → InInt offset
    → length buf < 2 ^ 31
    → length p.buffer < 2 ^ 31
    → set_bytes p offset buf ≡ ok q
    → get_bytes q offset ≡ ok buf
get_bytes-set_bytes p q offset buf h t s e =
    let (n, eo, a, b, w) = set_bytes-Written p q offset buf h t s e in
    rw eo (get_bytes-written p q n buf a s b w)

-- Bytes that were stored on a page below 2 ^ 31 bytes leave the outcome of reading a word in front
-- of their length or behind them as it was.
pub get_int-set_bytes_other :
    (p q : Page) (n m : ℕ) (buf : List ℕ)
    → n < 2 ^ 31
    → length buf < 2 ^ 31
    → length p.buffer < 2 ^ 31
    → set_bytes p (pos n) buf ≡ ok q
    → (m + 4 ≤ n) ⊎ (n + 4 + length buf ≤ m)
    → get_int q (pos m) ≡ get_int p (pos m)
unfolding encode_int
get_int-set_bytes_other p q n m buf h t s e d =
    let (a, b, w) = set_bytes-at p q n buf h t s e in
    let word = encode_int (pos (length buf)) in
    get_int-frame p q m
      (rw (
        w,
        length-write_at (n + 4) buf (write_at n word p.buffer),
        length-write_at n word p.buffer,
      ))
      (ap (read_at m 4) w ∙ outside p.buffer d)
  where
    outside :
        (xs : List ℕ)
        → (m + 4 ≤ n) ⊎ (n + 4 + length buf ≤ m)
        → read_at m 4 (write_at (n + 4) buf (write_at n (encode_int (pos (length buf))) xs))
          ≡ read_at m 4 xs
    outside xs (inl h) =
        read_at-write_at_above m 4 (n + 4) buf (write_at n (encode_int (pos (length buf))) xs)
          (omega arith)
        ∙ read_at-write_at_above m 4 n (encode_int (pos (length buf))) xs (omega arith)
    outside xs (inr h) =
        read_at-write_at_below m 4 (n + 4) buf (write_at n (encode_int (pos (length buf))) xs)
          (omega arith)
        ∙ read_at-write_at_below m 4 n (encode_int (pos (length buf))) xs (omega arith)
