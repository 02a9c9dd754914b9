-- ===== src/Parse/PredParser.antt =====
-- The predicate parser, src/libs/dbcore/parse/pred_parser.hpp: the rules of the parser for predicates,
-- which say whether a text has the right form and build nothing.
use myc_db.Prelude.{
  ℕ, zero, suc, ◌≡◌, refl, sym, ◌∙◌, ap, Bool, true, false, deadlock, Result, ok, err, Op, continue,
  return, throw, text,
}
use myc_db.Prelude.Steps.{◌>>◌}
use myc_db.Parse.Lexer.{
  Lexer, match_keyword, match_id, match_str_constant, consume_delimeter, consume_keyword,
  consume_int_constant, consume_str_constant,
}
use myc_db.Parse.Parser.{
  when, get_field, parse_constant, parse_expression, parse_term, parse_predicate,
}

-- The same outcome with no value.
abbrev pub forget : {A : Type 0} → Result A × Lexer → Result (Unit {0}) × Lexer
forget (ok a, s) = (ok tt, s)
forget (err e, s) = (err e, s)

abbrev pub discard : {A : Type 0} → Op Lexer A → Op Lexer (Unit {0})
discard m s = forget (m s)

unfoldable pub check_constant : Op Lexer (Unit {0})
unfolding match_str_constant consume_str_constant consume_int_constant
check_constant =
    when match_str_constant (discard consume_str_constant) (discard consume_int_constant)

unfoldable pub check_expression : Op Lexer (Unit {0})
unfolding match_id get_field check_constant
check_expression = when match_id (discard get_field) check_constant

unfoldable pub check_term : Op Lexer (Unit {0})
unfolding check_expression consume_delimeter
check_term = do check_expression; consume_delimeter b'='; check_expression

unfoldable pub check_predicate : ℕ → Op Lexer (Unit {0})
unfolding check_term match_keyword consume_keyword
check_predicate zero = throw deadlock
check_predicate (suc n) = do
  check_term
  when (match_keyword (text "and")) (do consume_keyword (text "and"); check_predicate n) (return tt)

forget-continue :
    {A B : Type 0} (r : Result A × Lexer) (f : A → Op Lexer B) (g : Op Lexer (Unit {0}))
    → ((a : A) (t : Lexer) → forget (f a t) ≡ g t)
    → forget (continue r f) ≡ continue (forget r) (λ _. g)
forget-continue (ok a, t) f g h = h a t
forget-continue (err e, t) f g h = refl

forget-return :
    {A B : Type 0} (r : Result A × Lexer) (f : A → B)
    → forget (continue r (λ a. return (f a))) ≡ forget r
forget-return (ok a, t) f = refl
forget-return (err e, t) f = refl

forget-when :
    {A : Type 0} (b : Bool) (x y : Result A × Lexer) (x' y' : Result (Unit {0}) × Lexer)
    → forget x ≡ x'
    → forget y ≡ y'
    → forget (elim b as (λ b. Result A × Lexer) [ true ↦ x | false ↦ y ])
      ≡ elim b as (λ b. Result (Unit {0}) × Lexer) [ true ↦ x' | false ↦ y' ]
forget-when true x y x' y' h k = h
forget-when false x y x' y' h k = k

forget-constant : (s : Lexer) → forget (parse_constant s) ≡ check_constant s
unfolding parse_constant check_constant
forget-constant s =
    forget-when (match_str_constant s) _ _ _ _ (forget-return (consume_str_constant s) _)
      (forget-return (consume_int_constant s) _)

forget-expression : (s : Lexer) → forget (parse_expression s) ≡ check_expression s
unfolding parse_expression check_expression
forget-expression s =
    forget-when (match_id s) _ _ _ _ (forget-return (get_field s) _)
      (forget-return (parse_constant s) _ ∙ forget-constant s)

then-same :
    {A B : Type 0} (r : Result A × Lexer) (r' : Result (Unit {0}) × Lexer) (f : A → Op Lexer B)
    (g : Op Lexer (Unit {0}))
    → forget r ≡ r'
    → ((a : A) (t : Lexer) → forget (f a t) ≡ g t)
    → forget (continue r f) ≡ continue r' (λ _. g)
then-same r r' f g e h = forget-continue r f g h ∙ ap (λ x. continue x (λ _. g)) e

forget-unit : (r : Result (Unit {0}) × Lexer) → forget r ≡ r
forget-unit (ok tt, t) = refl
forget-unit (err e, t) = refl

forget-term : (s : Lexer) → forget (parse_term s) ≡ check_term s
unfolding parse_term check_term
forget-term s =
    then-same (parse_expression s) (check_expression s) _ _ (forget-expression s) (λ lhs t.
      then-same (consume_delimeter b'=' t) (consume_delimeter b'=' t) _ _
        (forget-unit (consume_delimeter b'=' t))
        (λ u v. forget-return (parse_expression v) _ ∙ forget-expression v))

forget-predicate : (n : ℕ) (s : Lexer) → forget (parse_predicate n s) ≡ check_predicate n s
unfolding parse_predicate check_predicate
forget-predicate zero s = refl
forget-predicate (suc n) s = then-same (parse_term s) (check_term s) _ _ (forget-term s) (λ t u.
    forget-when (match_keyword (text "and") u) _ _ _ _
      (then-same (consume_keyword (text "and") u) (consume_keyword (text "and") u) _ _
        (forget-unit (consume_keyword (text "and") u))
        (λ a v. forget-return (parse_predicate n v) _ ∙ forget-predicate n v))
      refl)

-- On every lexer and with every fuel the predicate parser ends as the rule of the parser for predicates
-- does, in the same state and with the same exception; it only builds no predicate.
pub check_predicate-parse_predicate :
    (n : ℕ) (s : Lexer) → check_predicate n s ≡ forget (parse_predicate n s)
check_predicate-parse_predicate n s = sym (forget-predicate n s)
