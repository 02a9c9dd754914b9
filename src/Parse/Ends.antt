-- ===== src/Parse/Ends.antt =====
-- How the rules of the parser end: src/libs/dbcore/parse/parser.cpp.
use myc_db.Prelude.{
  ℕ, zero, suc, ◌≢◌, refl, Bool, true, false, Result, ok, err, Op, continue, Text, text,
}
use myc_db.Parse.Lexer.{
  Lexer, match_keyword, consume_delimeter, consume_keyword, consume_id, consume_int_constant,
}
use myc_db.Parse.Parser.{get_field, parse_field_type, field_def, field_defs, create_table}

-- The call throws.
abbrev pub Fails : {A : Type 0} → Result A × Lexer → Type 0
Fails {A} r = (a : A) → r.0 ≢ ok a

Fails-later :
    {A B : Type 0} (r : Result A × Lexer) (f : A → Op Lexer B)
    → ((a : A) (t : Lexer) → Fails (f a t))
    → Fails (continue r f)
Fails-later (ok a, t) f h = h a t
Fails-later (err e, t) f h = λ b k. cc

Fails-first :
    {A B : Type 0} (r : Result A × Lexer) (f : A → Op Lexer B) → Fails r → Fails (continue r f)
Fails-first (ok a, t) f h = absurd (h a refl)
Fails-first (err e, t) f h = λ b k. cc

Fails-when :
    {A : Type 0} (b : Bool) (x y : Result A × Lexer)
    → Fails x
    → Fails y
    → Fails (elim b as (λ b. Result A × Lexer) [ true ↦ x | false ↦ y ])
Fails-when true x y h k = h
Fails-when false x y h k = k

parse_field_type-Fails : (f : Text) (s : Lexer) → Fails (parse_field_type f s)
unfolding parse_field_type
parse_field_type-Fails f s =
    Fails-when (match_keyword (text "int") s) _ _
      (Fails-later (consume_keyword (text "int") s) _ (λ a t b k. cc))
      (Fails-later (consume_keyword (text "varchar") s) _ (λ a t.
        Fails-later (consume_delimeter b'(' t) _ (λ a t.
          Fails-later (consume_int_constant t) _
            (λ a t. Fails-later (consume_delimeter b')' t) _ (λ a t b k. cc)))))

field_defs-Fails : (n : ℕ) (s : Lexer) → Fails (field_defs n s)
unfolding field_defs field_def
field_defs-Fails zero s = λ b k. cc
field_defs-Fails (suc n) s =
    Fails-first (field_def s) _ (Fails-later (get_field s) _ parse_field_type-Fails)

-- No text makes `create_table` return: the schema of its first field is a null pointer.
pub create_table-Fails : (n : ℕ) (s : Lexer) → Fails (create_table n s)
unfolding create_table
create_table-Fails n s = Fails-later (consume_keyword (text "table") s) _ (λ a t.
    Fails-later (consume_id t) _ (λ a t.
      Fails-later (consume_delimeter b'(' t) _
        (λ a t. Fails-first (field_defs n t) _ (field_defs-Fails n t))))
