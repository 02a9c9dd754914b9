-- ===== src/File/Page/Below.antt =====
-- Writing on a page from its start to its end: what stands below a write stays.
use myc_db.Prelude.{
  ℕ, ◌+◌, ◌%◌, ◌^◌, ◌≤◌, ◌<◌, ◌≡◌, refl, ap, ◌∙◌, List, arith, length, length-write_at, read_at,
  write_at, read_at-write_at, read_at-write_at_above, InInt, ℤ, pos, ok, Text,
}
use myc_db.File.Page.{Page, encode_int, get_int, set_int, get_string, set_bytes, set_string}
use myc_db.File.Page.RoundTrip.{get_int-written, get_bytes-at, get_int-frame}

-- Two pages of one size that agree below a position.
pub record Below (p q : Page) (from : ℕ) : Type 0 where
  pub size : length q.buffer ≡ length p.buffer
  pub same : (m k : ℕ) → m + k ≤ from → read_at m k q.buffer ≡ read_at m k p.buffer

pub Below-trans : (p q r : Page) (a b : ℕ) → a ≤ b → Below p q a → Below q r b → Below p r a
Below-trans p q r a b h x y = record {
  size = y.size ∙ x.size;
  same = λ m k l. y.same m k (omega arith) ∙ x.same m k l;
}

Below-write_at :
    (n : ℕ) (vs xs : List ℕ)
    → Below (record { buffer = xs }) (record { buffer = write_at n vs xs }) n
Below-write_at n vs xs = record {
  size = length-write_at n vs xs;
  same = λ m k h. read_at-write_at_above m k n vs xs h;
}

-- An `int` is written where a word of the page begins.
pub set_int-there :
    (p : Page) (n : ℕ) (num : ℤ)
    → InInt num
    → n % 4 ≡ 0
    → n + 4 ≤ length p.buffer
    → length p.buffer < 2 ^ 31
    → (q : Page) × (set_int p (pos n) num ≡ ok q) × Below p q n × (get_int q (pos n) ≡ ok num)
unfolding set_int
set_int-there p n num k a h s =
    let q : Page = record { buffer = write_at n (encode_int num) p.buffer } in
    (
      q,
      ground arith,
      Below-write_at n (encode_int num) p.buffer,
      get_int-written p q n num (omega arith) k a h refl,
    )

pub get_int-Below :
    (p q : Page) (from n : ℕ)
    → Below p q from
    → n + 4 ≤ from
    → get_int q (pos n) ≡ get_int p (pos n)
get_int-Below p q from n b h = get_int-frame p q n b.size (b.same n 4 h)

pub size_kept :
    (p q : Page) (from n : ℕ) → Below p q from → length p.buffer ≡ n → length q.buffer ≡ n
size_kept p q from n b e = b.size ∙ e

pub word_kept :
    (p q : Page) (from n : ℕ) (w : ℤ)
    → Below p q from
    → n + 4 ≤ from
    → get_int p (pos n) ≡ ok w
    → get_int q (pos n) ≡ ok w
word_kept p q from n w b h e = get_int-Below p q from n b h ∙ e

-- A text with its length in front of it.
pub record HasText (p : Page) (n : ℕ) (t : Text) : Type 0 where
  pub head : get_int p (pos n) ≡ ok (pos (length t))
  pub body : read_at (n + 4) (length t) p.buffer ≡ t

pub HasText-Below :
    (p q : Page) (from n : ℕ) (t : Text)
    → Below p q from
    → n + 4 + length t ≤ from
    → HasText p n t
    → HasText q n t
HasText-Below p q from n t b h x = record {
  head = get_int-Below p q from n b (omega arith) ∙ x.head;
  body = b.same (n + 4) (length t) h ∙ x.body;
}

pub get_string-HasText :
    (p : Page) (n : ℕ) (t : Text)
    → length p.buffer < 2 ^ 31
    → n + 4 + length t ≤ length p.buffer
    → HasText p n t
    → get_string p (pos n) ≡ ok t
unfolding get_string
get_string-HasText p n t s h x = get_bytes-at p n (length t) s h x.head ∙ ap ok x.body

-- A text is written where a word of the page begins.
pub set_string-there :
    (p : Page) (n : ℕ) (t : Text)
    → n % 4 ≡ 0
    → n + 4 + length t ≤ length p.buffer
    → length p.buffer < 2 ^ 31
    → (q : Page) × (set_string p (pos n) t ≡ ok q) × Below p q n × HasText q n t
unfolding set_string set_bytes
set_string-there p n t a h s =
    let word = write_at n (encode_int (pos (length t))) p.buffer in
    let mid : Page = record { buffer = word } in
    let q : Page = record { buffer = write_at (n + 4) t word } in
    let low : Below p mid n = Below-write_at n (encode_int (pos (length t))) p.buffer in
    let high : Below mid q (n + 4) = Below-write_at (n + 4) t word in
    let there =
      get_int-written p mid n (pos (length t)) (omega arith) (omega arith) a (omega arith) refl in
    (
      q,
      ground arith,
      Below-trans p mid q n (n + 4) (omega arith) low high,
      record {
        head = get_int-Below mid q (n + 4) n high (omega arith) ∙ there;
        body = read_at-write_at (n + 4) t word (omega (arith, low.size));
      },
    )
