-- ===== src/Parse/Lists.antt =====
-- The lists of the parser end: src/libs/dbcore/parse/parser.cpp.
use myc_db.Prelude.{
  ℕ, zero, suc, ◌-◌, ◌≤◌, ◌<◌, ◌^◌, ◌≡◌, ◌≢◌, ◌⊎◌, inl, inr, refl, subst, ap, Bool, true, false,
  ◌&&◌, ◌||◌, ◌==◌, [], ◌∷◌, arith, leb, length, pos, negsuc, Error, undefined, deadlock,
  bad_syntax, Result, ok, err, Op, continue, return, throw, Text, if◌then◌else◌,
}
use myc_db.Parse.Lexer.{
  Lexer, match_delimeter, match_id, match_str_constant, match_int_constant, consume_delimeter,
  consume_id, consume, consume_int_constant, consume_str_constant, next_token, token_at, read_token,
  read_string, read_number, skip_whitespace, rest, is_digit, is_alpha,
}
use myc_db.Parse.Tokens.{Proceeds, next_token-Proceeds}
use myc_db.Parse.Ends.{Fails}
use myc_db.Parse.Parser.{
  separated, get_field, field_list, table_list, select_list, const_list, parse_constant,
}
use myc_db.Query.Constant.{int, str}

-- The call did not run out of fuel.
abbrev pub IsDone : {A : Type 0} → Result A × Lexer → Type 0
IsDone r = r.0 ≢ err deadlock

if-IsDone :
    (b : Bool) (x y : Result (Unit {0}) × Lexer) → IsDone x → IsDone y → IsDone (if b then x else y)
if-IsDone true x y h k = h
if-IsDone false x y h k = k

read_number-IsDone : (s : Lexer) → IsDone (read_number s)
unfolding read_number
read_number-IsDone s = ground arith

read_string-IsDone : (s : Lexer) → IsDone (read_string s)
unfolding read_string
read_string-IsDone s = ground arith

token_at-IsDone : (r : Text) (s : Lexer) → IsDone (token_at r s)
unfolding token_at read_token
token_at-IsDone [] s = λ e. cc
token_at-IsDone (c ∷ r) s =
    let t = record s { curr_char = c } in
    if-IsDone (is_digit c) (read_number t) _ (read_number-IsDone t) (
      if-IsDone (is_alpha c || c == 95) (ok tt, _) _ (λ e. cc)
        (if-IsDone (c == 39) (read_string t) _ (read_string-IsDone t) (λ e. cc)))

next_token-IsDone : (s : Lexer) → IsDone (next_token s)
unfolding next_token
next_token-IsDone s = token_at-IsDone (rest (skip_whitespace s)) (skip_whitespace s)

-- A call that ends, not backwards, inside the same text.
Moves : {A : Type 0} → Lexer → Result A × Lexer → Type 0
Moves s r = IsDone r × (s.pos ≤ r.1.pos) × (r.1.pos ≤ length r.1.input) × (r.1.input ≡ s.input)

stays :
    (A : Type 0) (s : Lexer) (e : Error)
    → s.pos ≤ length s.input
    → e ≢ deadlock
    → Moves s (throw {A = A} e s)
unfolding Moves
stays A s e h ne = (λ k. ne cc, omega arith, h, refl)

return-Moves :
    {A : Type 0} (s : Lexer) (a : A) (r : Result (Unit {0}) × Lexer)
    → Moves s r
    → Moves s (continue r (λ _. return a))
unfolding Moves
return-Moves s a (ok u, t) (d, there, inside, same) = (λ k. cc, there, inside, same)
return-Moves s a (err e, t) (d, there, inside, same) = (λ k. d cc, there, inside, same)

next_token-Moves : (s : Lexer) → s.pos ≤ length s.input → Moves s (next_token s)
unfolding Moves Proceeds
next_token-Moves s h =
    let (there, inside, same, moved) = next_token-Proceeds s h in
    (next_token-IsDone s, there, inside, same)

consume-Moves :
    {A : Type 0} (s : Lexer) (b : Bool) (a : A) → s.pos ≤ length s.input → Moves s (consume b a s)
consume-Moves s true a h = return-Moves s a (next_token s) (next_token-Moves s h)
consume-Moves s false a h = stays _ s bad_syntax h (λ e. cc)

-- What the list rule asks of its item: it moves, and fails at the end of the text.
record IsItem {A : Type 0} (item : Op Lexer A) : Type 0 where
  moves : (s : Lexer) → s.pos ≤ length s.input → Moves s (item s)
  at_end : (s : Lexer) → s.curr_type ≡ negsuc 0 → Fails (item s)

consume_id-IsItem : IsItem consume_id
unfolding consume_id match_id
consume_id-IsItem = record {
  moves = λ s h. consume-Moves s (match_id s) s.curr_string h;
  at_end = λ s e. rw e (λ a k. cc);
}

Moves-map :
    {A B : Type 0} (s : Lexer) (f : A → B) (r : Result A × Lexer)
    → Moves s r
    → Moves s (continue r (λ a. return (f a)))
unfolding Moves
Moves-map s f (ok u, t) (d, there, inside, same) = (λ k. cc, there, inside, same)
Moves-map s f (err e, t) (d, there, inside, same) = (λ k. d cc, there, inside, same)

if-Moves :
    {A : Type 0} (s : Lexer) (b : Bool) (x y : Result A × Lexer)
    → Moves s x
    → Moves s y
    → Moves s (if b then x else y)
if-Moves s true x y m n = m
if-Moves s false x y m n = n

consume_int_constant-Moves : (s : Lexer) → s.pos ≤ length s.input → Moves s (consume_int_constant s)
unfolding consume_int_constant
consume_int_constant-Moves s h =
    if-Moves s (match_int_constant s && leb (2 ^ 31) s.curr_number) (err undefined, s) _
      (stays _ s undefined h (λ e. cc))
      (consume-Moves s (match_int_constant s) (pos s.curr_number) h)

when-Moves :
    {A : Type 0} (s : Lexer) (b : Bool) (x y : Result A × Lexer)
    → Moves s x
    → Moves s y
    → Moves s (elim b as (λ b. Result A × Lexer) [ true ↦ x | false ↦ y ])
when-Moves s true x y m n = m
when-Moves s false x y m n = n

parse_constant-IsItem : IsItem parse_constant
unfolding parse_constant consume_str_constant consume_int_constant match_str_constant
    match_int_constant
parse_constant-IsItem = record {
  moves = λ s h.
      when-Moves s (match_str_constant s) _ _
        (Moves-map s str (consume_str_constant s)
          (consume-Moves s (match_str_constant s) s.curr_string h))
        (Moves-map s int (consume_int_constant s) (consume_int_constant-Moves s h));
  at_end = λ s e. rw e (λ a k. cc);
}

-- Behind a comma stands more text, or its end.
MovesOn : Lexer → Result (Unit {0}) × Lexer → Type 0
MovesOn s r =
    Moves s r × ((a : Unit {0}) → r.0 ≡ ok a → (s.pos < r.1.pos) ⊎ (r.1.curr_type ≡ negsuc 0))

comma_cases :
    (s : Lexer) (b : Bool)
    → s.pos ≤ length s.input
    → MovesOn s (if b then next_token s else (err undefined, s))
unfolding MovesOn Proceeds
comma_cases s true h = (next_token-Moves s h, λ a e. (next_token-Proceeds s h).3)
comma_cases s false h = (stays _ s undefined h (λ e. cc), λ a e. absurd cc)

comma-MovesOn : (s : Lexer) → s.pos ≤ length s.input → MovesOn s (consume_delimeter b',' s)
unfolding consume_delimeter
comma-MovesOn s h = comma_cases s (match_delimeter b',' s) h

continue-IsDone :
    {A B : Type 0} (r : Result A × Lexer) (f : A → Op Lexer B)
    → IsDone r
    → ((a : A) (t : Lexer) → r ≡ (ok a, t) → IsDone (f a t))
    → IsDone (continue r f)
continue-IsDone (ok a, t) f d k = k a t refl
continue-IsDone (err e, t) f d k = λ q. d cc

when-IsDone :
    {A : Type 0} (b : Bool) (x y : Result A × Lexer)
    → IsDone x
    → IsDone y
    → IsDone (elim b as (λ b. Result A × Lexer) [ true ↦ x | false ↦ y ])
when-IsDone true x y m n = m
when-IsDone false x y m n = n

-- Fuel for two rounds more than there are characters left is enough.
separated-IsDone :
    {A : Type 0} (item : Op Lexer A) (n : ℕ) (s : Lexer)
    → IsItem item
    → s.pos ≤ length s.input
    → suc (length s.input - s.pos) < n ⊎ ((0 < n) × (s.curr_type ≡ negsuc 0))
    → IsDone (separated item n s)
unfolding separated Moves MovesOn
separated-IsDone item zero s i h (inl k) = absurd (omega arith)
separated-IsDone item zero s i h (inr (k, e)) = absurd (omega arith)
separated-IsDone item (suc n) s i h (inr (k, e)) =
    continue-IsDone (item s) _ (i.moves s h).0 (λ a t f. absurd (i.at_end s e a (ap (λ r. r.0) f)))
separated-IsDone item (suc n) s i h (inl k) = continue-IsDone (item s) _ (i.moves s h).0 λ a t e.
    let (d, there, inside, same) : Moves s (ok a, t) = subst (Moves s) e (i.moves s h) in
    when-IsDone (match_delimeter b',' t) _ _
      (continue-IsDone (consume_delimeter b',' t) _ (comma-MovesOn t inside).0.0 λ v u f.
        let (moves, on) : MovesOn t (ok v, u) = subst (MovesOn t) f (comma-MovesOn t inside) in
        continue-IsDone (separated item n u) _
          (separated-IsDone item n u i moves.2 (elim (on v refl) [
            | inl moved ↦ inl (omega (arith, moved, moves.2, ap length same, ap length moves.3))
            | inr ended ↦ inr (omega arith, ended)
          ]))
          (λ r w g q. cc))
      (λ q. cc)

-- Two rounds more than there are characters left are enough for each of the four lists: none of them
-- runs out of fuel, whatever the text.
pub lists-IsDone :
    (s : Lexer) (n : ℕ)
    → s.pos ≤ length s.input
    → suc (length s.input - s.pos) < n
    → IsDone (select_list n s)
      × IsDone (table_list n s)
      × IsDone (field_list n s)
      × IsDone (const_list n s)
unfolding select_list table_list field_list const_list get_field
lists-IsDone s n h k = (
  separated-IsDone consume_id n s consume_id-IsItem h (inl k),
  separated-IsDone consume_id n s consume_id-IsItem h (inl k),
  separated-IsDone consume_id n s consume_id-IsItem h (inl k),
  separated-IsDone parse_constant n s parse_constant-IsItem h (inl k),
)
