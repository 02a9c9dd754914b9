-- ===== src/Parse/Tokens.antt =====
-- Every token moves the lexer forward inside its text: src/libs/dbcore/parse/lexer.cpp.
use myc_db.Prelude.{
  ℕ, suc, ◌+◌, ◌-◌, ◌≤◌, ◌<◌, ◌≡◌, ◌⊎◌, inl, inr, refl, sym, subst, ap, Bool, true, false, not,
  ◌||◌, if◌then◌else◌, [], ◌∷◌, arith, length, drop, length-drop, ℤ, negsuc, ◌==◌, Result, ok,
  after, Text,
}
use myc_db.Parse.Lexer.{
  Lexer, is_digit, is_alpha, is_word, is_space, take_while, rest, skip_whitespace, read_word,
  read_number, read_string, read_token, token_at, next_token,
}

-- Behind the position of `s`, and not behind the end of the same text.
pub Advances : Lexer → Lexer → Type 0
Advances s t = (s.pos < t.pos) × (t.pos ≤ length t.input) × (t.input ≡ s.input)

take_while-le : (test : ℕ → Bool) (s : Text) → length (take_while test s) ≤ length s
unfolding take_while
take_while-le test [] = omega arith
take_while-le test (c ∷ s) = ground (arith, take_while-le test s)

take_while-pos :
    (test : ℕ → Bool) (c : ℕ) (s : Text) → test c ≡ true → 0 < length (take_while test (c ∷ s))
unfolding take_while
take_while-pos test c s h = ground arith

if-Advances :
    (s : Lexer) (b : Bool) (x y : Result (Unit {0}) × Lexer)
    → (b ≡ true → Advances s (after x))
    → Advances s (after y)
    → Advances s (after (if b then x else y))
if-Advances s true x y h k = h refl
if-Advances s false x y h k = k

word_char : (c : ℕ) → (is_alpha c || c == 95) ≡ true → is_word c ≡ true
word_char c h = ground arith

module _ (c : ℕ) (r : Text) (s : Lexer) (here : rest s ≡ c ∷ r) where
  rest_length : length s.input - s.pos ≡ suc (length r)
  rest_length = omega (arith, length-drop s.pos s.input, ap length here)

  scanned : (test : ℕ → Bool) → test c ≡ true → 0 < length (take_while test (rest s))
  scanned test h =
      subst (λ x. 0 < length (take_while test x)) (sym here) (take_while-pos test c r h)

  scanned_le : (test : ℕ → Bool) → s.pos + length (take_while test (rest s)) ≤ length s.input
  scanned_le test = omega (arith, rest_length, take_while-le test (rest s), ap length here)

  read_word-Advances : is_word c ≡ true → Advances s (read_word s)
  unfolding Advances read_word
  read_word-Advances h = (omega (arith, scanned is_word h), scanned_le is_word, refl)

  read_number-Advances : is_digit c ≡ true → Advances s (after (read_number s))
  unfolding Advances read_number
  read_number-Advances h = ground (arith, scanned is_digit h, scanned_le is_digit)

  read_string-Advances : Advances s (after (read_string s))
  unfolding Advances read_string
  read_string-Advances = ground (
    arith,
    rest_length,
    length-drop (suc s.pos) s.input,
    take_while-le (λ c. not (c == 39)) (drop (suc s.pos) s.input),
  )

  next_char : (z : ℤ) → Advances s (record s { pos = suc s.pos; curr_type = z })
  unfolding Advances
  next_char z = (omega arith, omega (arith, rest_length), refl)

  read_token-Advances : Advances s (after (read_token c s))
  unfolding read_token
  read_token-Advances = if-Advances s (is_digit c) (read_number s) _ read_number-Advances (
      if-Advances s (is_alpha c || c == 95) (ok tt, read_word s) _
        (λ h. read_word-Advances (word_char c h))
        (if-Advances s (c == 39) (read_string s) _ (λ h. read_string-Advances) (next_char _)))

-- Not backwards, inside the same text, and forward unless the token says that the text has ended.
unfoldable pub Proceeds : Lexer → Lexer → Type 0
Proceeds s t =
    (s.pos ≤ t.pos)
    × (t.pos ≤ length t.input)
    × (t.input ≡ s.input)
    × ((s.pos < t.pos) ⊎ (t.curr_type ≡ negsuc 0))

token_at-Proceeds :
    (s : Lexer) (r : Text) → rest s ≡ r → s.pos ≤ length s.input → Proceeds s (after (token_at r s))
unfolding token_at Proceeds Advances
token_at-Proceeds s [] e h = (omega arith, h, refl, inr refl)
token_at-Proceeds s (c ∷ r) e h =
    let (forward, inside, same) = read_token-Advances c r (record s { curr_char = c }) e in
    (omega (arith, forward), inside, same, inl forward)

skip_whitespace-le : (s : Lexer) → s.pos ≤ length s.input → (skip_whitespace s).pos ≤ length s.input
unfolding skip_whitespace
skip_whitespace-le s h =
    omega (arith, length-drop s.pos s.input, take_while-le is_space (drop s.pos s.input))

-- From a position inside the text `next_token` goes on, to a position inside the same text: forward,
-- unless it stands at the end and says so.
pub next_token-Proceeds : (s : Lexer) → s.pos ≤ length s.input → Proceeds s (after (next_token s))
unfolding next_token skip_whitespace Proceeds
next_token-Proceeds s h =
    let t = skip_whitespace s in
    let (there, inside, same, moved) = token_at-Proceeds t (rest t) refl (skip_whitespace-le s h) in
    (
      omega (arith, there),
      inside,
      same,
      elim moved [ inl m ↦ inl (omega (arith, m)) | inr e ↦ inr e ],
    )
