-- ===== src/Tests/Queries.antt =====
-- Concrete tables, rows, predicates and texts.
use myc_db.Prelude.{
  subst, InInt, ok_inj, ◌≡◌, true, refl, some, [], ◌∷◌, arith, pos, negsuc, Result, ok, text, Text,
  same_text, after,
}
use myc_db.Record.Schema.{Schema, integer, field_type}
use myc_db.File.Page.{int_size}
use myc_db.Record.Layout.{Layout, make_layout, offset}
use myc_db.Record.Offsets.{field_bytes, end_of, AllShort, make_layout-offset}
use myc_db.Query.Constant.{Constant, int}
use myc_db.Query.Expression.{of_constant, of_field}
use myc_db.Query.Term.{Term}
use myc_db.Query.Predicate.{Predicate, holds, select_sub_pred, find_constant}
use myc_db.Parse.Lexer.{Lexer, make_lexer, next_token}
use myc_db.Parse.Parser.{select_list, table_list, field_list, const_list, create_table}
use myc_db.Parse.Parser.{parse_predicate}
use myc_db.Parse.PredParser.{check_predicate, forget, check_predicate-parse_predicate}
use myc_db.Parse.Ends.{Fails, create_table-Fails}
use myc_db.Parse.Lists.{IsDone, lists-IsDone}
use myc_db.Parse.Tokens.{Proceeds, next_token-Proceeds}

abbrev one_field : Schema
one_field = record {
  fields = text "a" ∷ [];
  info = (text "a", record { type = integer; length = pos 0 }) ∷ [];
}

abbrev one_layout : Layout
one_layout = record { schema = one_field; offsets = (text "a", pos 4) ∷ []; slot_size = negsuc 6 }

one_layout-made : make_layout one_field (negsuc 6) ≡ ok one_layout
unfolding make_layout same_text
one_layout-made = refl

one_field-AllShort : AllShort one_field (text "a" ∷ [])
unfolding field_bytes field_type same_text
one_field-AllShort = (λ n e. subst InInt (ok_inj e) (omega arith, omega arith), tt)

make_layout-offset_example :
    (offset one_layout (text "a") ≡ end_of one_field [] (pos int_size))
    × (one_layout.slot_size ≡ negsuc 6)
make_layout-offset_example =
    make_layout-offset one_field (negsuc 6) one_layout [] [] (text "a") refl tt one_field-AllShort
      one_layout-made

-- `a = 5`, on a row where `a` is 5.
abbrev a_is_5 : Term
a_is_5 = record { lhs = of_field (text "a"); rhs = of_constant (int (pos 5)) }

abbrev only_a : Predicate
only_a = record { terms = a_is_5 ∷ [] }

row : Text → Result Constant
row f = ok (int (pos 5))

row_satisfies : holds row only_a ≡ ok true
unfolding row holds
row_satisfies = refl

selected : select_sub_pred only_a one_field ≡ ok (some only_a)
unfolding select_sub_pred same_text
selected = refl

found_5 : find_constant only_a (text "a") ≡ ok (int (pos 5))
unfolding find_constant same_text
found_5 = refl

abbrev select_text : Lexer
select_text = record (make_lexer [] 0 (pos 0) 0) { input = text " select 7" }

next_token-Proceeds_example : Proceeds select_text (after (next_token select_text))
unfolding make_lexer
next_token-Proceeds_example = next_token-Proceeds select_text (omega arith)

lists-IsDone_example :
    IsDone (select_list 11 select_text)
    × IsDone (table_list 11 select_text)
    × IsDone (field_list 11 select_text)
    × IsDone (const_list 11 select_text)
unfolding make_lexer
lists-IsDone_example = lists-IsDone select_text 11 (omega arith) (omega arith)

create_table-Fails_example : Fails (create_table 3 select_text)
create_table-Fails_example = create_table-Fails 3 select_text

check_predicate-parse_predicate_example :
    check_predicate 2 select_text ≡ forget (parse_predicate 2 select_text)
check_predicate-parse_predicate_example = check_predicate-parse_predicate 2 select_text
