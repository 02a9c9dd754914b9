-- ===== src/Parse/Lexer.antt =====
-- The lexer: src/libs/dbcore/parse/lexer.hpp and lexer.cpp. A token's type is a character: `0` for a
-- number, a quote for a string, `a` for a word, EOF (-1) at the end, and any other character for
-- itself. `char` is signed and the locale is "C", where bytes from 128 on are in no class.
use myc_db.Prelude.{
  ℕ, suc, ◌+◌, ◌-◌, ◌*◌, ◌^◌, Bool, false, ◌&&◌, ◌||◌, not, List, [], ◌∷◌, ltb, leb, ◌==◌,
  if◌then◌else◌, length, drop, ℤ, pos, negsuc, ◌==ℤ◌, bad_syntax, out_of_range, undefined, ok, err,
  Op, return, Text, same_text,
}
use myc_db.Prelude.Steps.{◌>>◌}
use myc_db.Query.Constant.{signed_char}

-- `curr_number` holds the digits of a number read exactly: a `double` agrees below 2⁵³, and is 2³¹ or
-- more exactly when they are.
pub record Lexer : Type 0 where
  pub keywords : List Text
  pub input : Text
  pub pos : ℕ
  pub curr_char : ℕ
  pub curr_type : ℤ
  pub curr_string : Text
  pub curr_number : ℕ

-- The constructor: the keywords come from a file, the last token's fields start uninitialised.
unfoldable pub make_lexer : List Text → ℕ → ℤ → ℕ → Lexer
make_lexer dict char type number = record {
  keywords = dict;
  input = [];
  pos = 0;
  curr_char = char;
  curr_type = type;
  curr_string = [];
  curr_number = number;
}

abbrev pub is_digit : ℕ → Bool
is_digit c = leb 48 c && leb c 57

abbrev pub is_upper : ℕ → Bool
is_upper c = leb 65 c && leb c 90

abbrev pub is_alpha : ℕ → Bool
is_alpha c = is_upper c || leb 97 c && leb c 122

abbrev pub is_space : ℕ → Bool
is_space c = leb 9 c && leb c 13 || c == 32

abbrev pub is_word : ℕ → Bool
is_word c = is_alpha c || is_digit c || c == 95

abbrev pub to_lower : ℕ → ℕ
to_lower c = if is_upper c then c + 32 else c

-- What the loop `while (m_pos < length && test(m_input[m_pos])) oss << m_input[m_pos++]` collects.
unfoldable pub take_while : (ℕ → Bool) → Text → Text
take_while test [] = []
take_while test (c ∷ s) = let rest = take_while test s in if test c then c ∷ rest else []

unfoldable pub lower : Text → Text
lower [] = []
lower (c ∷ s) = to_lower c ∷ lower s

-- The digits as a number, from the left.
unfoldable pub number_of : ℕ → Text → ℕ
number_of n [] = n
number_of n (c ∷ s) = number_of (10 * n + (c - 48)) s

-- The least number that is too large for a `double`.
abbrev pub double_limit : ℕ
double_limit = 2 ^ 1024 - 2 ^ 970

abbrev pub rest : Lexer → Text
rest s = drop s.pos s.input

unfoldable pub skip_whitespace : Lexer → Lexer
unfolding take_while
skip_whitespace s = record s { pos = s.pos + length (take_while is_space (rest s)) }

unfoldable pub read_word : Lexer → Lexer
unfolding take_while lower
read_word s =
    let word = take_while is_word (rest s) in
    record s { pos = s.pos + length word; curr_string = lower word; curr_type = pos b'a' }

-- `std::stod` throws where the number is too large.
unfoldable pub read_number : Op Lexer (Unit {0})
unfolding take_while number_of
read_number s =
    let digits = take_while is_digit (rest s) in
    let n = number_of 0 digits in
    let there = s.pos + length digits in
    if ltb n double_limit
    then (ok tt, record s { pos = there; curr_number = n; curr_type = pos b'0' })
    else (err out_of_range, record s { pos = there })

-- The first quote stands at `m_pos`.
unfoldable pub read_string : Op Lexer (Unit {0})
unfolding take_while
read_string s =
    let body = take_while (λ c. not (c == 39)) (drop (suc s.pos) s.input) in
    let there = suc s.pos + length body in
    if leb (length s.input) there
    then (err bad_syntax, record s { pos = there })
    else (ok tt, record s { pos = suc there; curr_string = body; curr_type = pos 39 })

-- The token that starts with the character `c`, at `m_pos`.
unfoldable pub read_token : ℕ → Op Lexer (Unit {0})
unfolding read_number read_word read_string signed_char
read_token c s =
    if is_digit c
    then read_number s
    else if is_alpha c || c == 95
    then return tt (read_word s)
    else if c == 39
    then read_string s
    else return tt (record s { curr_type = signed_char c; pos = suc s.pos })

unfoldable pub token_at : Text → Op Lexer (Unit {0})
unfolding read_token
token_at [] s = return tt (record s { curr_type = negsuc 0 })
token_at (c ∷ r) s = read_token c (record s { curr_char = c })

unfoldable pub next_token : Op Lexer (Unit {0})
unfolding skip_whitespace token_at
next_token s = let t = skip_whitespace s in token_at (rest t) t

-- `analyze` leaves `m_pos` where the text before it ended.
unfoldable pub analyze : Text → Op Lexer (Unit {0})
unfolding next_token
analyze str s = next_token (record s { input = str })

unfoldable pub match_delimeter : ℕ → Lexer → Bool
unfolding signed_char
match_delimeter delim s = s.curr_type ==ℤ signed_char delim

unfoldable pub match_int_constant : Lexer → Bool
match_int_constant s = s.curr_type ==ℤ pos b'0'

unfoldable pub match_str_constant : Lexer → Bool
match_str_constant s = s.curr_type ==ℤ pos 39

unfoldable pub match_keyword : Text → Lexer → Bool
match_keyword word s = s.curr_type ==ℤ pos b'a' && same_text s.curr_string word

unfoldable pub member : List Text → Text → Bool
member [] w = false
member (k ∷ l) w = same_text k w || member l w

unfoldable pub match_id : Lexer → Bool
unfolding member
match_id s = s.curr_type ==ℤ pos b'a' && not (member s.keywords s.curr_string)

-- The message adds the delimiter to the address of a literal of 23 bytes, and so points outside of it.
unfoldable pub consume_delimeter : ℕ → Op Lexer (Unit {0})
unfolding match_delimeter next_token
consume_delimeter delim s =
    if match_delimeter delim s
    then next_token s
    else if leb delim 22
    then (err bad_syntax, s)
    else (err undefined, s)

-- The value of a token, if it matches, and then the next token.
abbrev pub consume : {A : Type 0} → Bool → A → Op Lexer A
consume matches value s = if matches then (do next_token; return value) s else (err bad_syntax, s)

-- A `double` outside the range of `int` has no conversion.
unfoldable pub consume_int_constant : Op Lexer ℤ
unfolding match_int_constant next_token
consume_int_constant s =
    if match_int_constant s && leb (2 ^ 31) s.curr_number
    then (err undefined, s)
    else consume (match_int_constant s) (pos s.curr_number) s

unfoldable pub consume_str_constant : Op Lexer Text
unfolding match_str_constant next_token
consume_str_constant s = consume (match_str_constant s) s.curr_string s

unfoldable pub consume_keyword : Text → Op Lexer (Unit {0})
unfolding match_keyword next_token
consume_keyword word s = consume (match_keyword word s) tt s

unfoldable pub consume_id : Op Lexer Text
unfolding match_id next_token
consume_id s = consume (match_id s) s.curr_string s
