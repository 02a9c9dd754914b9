-- ===== src/Parse/Parser.antt =====
-- The parser, by recursive descent over the lexer: src/libs/dbcore/parse/parser.{hpp,cpp}. A rule
-- that calls itself takes fuel; a rule that runs out of it has not ended.
use myc_db.Prelude.{
  ℕ, zero, suc, Bool, true, false, List, [], ◌∷◌, undefined, deadlock, Op, return, throw, Text,
  text,
}
use myc_db.Prelude.Steps.{◌>>=◌, ◌>>◌}
use myc_db.Parse.Lexer.{
  Lexer, match_delimeter, match_keyword, match_id, match_str_constant, consume_delimeter,
  consume_keyword, consume_id, consume_int_constant, consume_str_constant,
}
use myc_db.Parse.Statement.{
  QueryData, InsertData, DeleteData, ModifyData, CreateTableData, CreateViewData, CreateIndexData,
  make_create_index_data, Command, insert_cmd, delete_cmd, modify_cmd, create_table_cmd,
  create_view_cmd, create_index_cmd,
}
use myc_db.Query.Constant.{Constant, int, str}
use myc_db.Query.Expression.{Expression, of_constant, of_field}
use myc_db.Query.Term.{Term, make_term}
use myc_db.Query.Predicate.{Predicate, conjoin_with}
use myc_db.Record.Schema.{Schema, add_all}

-- `if (test) …; else …`, where the test reads the lexer.
abbrev pub when : {A : Type 0} → (Lexer → Bool) → Op Lexer A → Op Lexer A → Op Lexer A
when test m n s = elim (test s) [ true ↦ m s | false ↦ n s ]

-- The four lists of items with commas between them.
unfoldable pub separated : {A : Type 0} → Op Lexer A → ℕ → Op Lexer (List A)
unfolding match_delimeter consume_delimeter
separated item zero = throw deadlock
separated item (suc n) = do
  a ← item
  when (match_delimeter b',')
      (do consume_delimeter b','; rest ← separated item n; return (a ∷ rest)) (return (a ∷ []))

unfoldable pub get_field : Op Lexer Text
unfolding consume_id
get_field = consume_id

unfoldable pub parse_constant : Op Lexer Constant
unfolding match_str_constant consume_str_constant consume_int_constant
parse_constant =
    when match_str_constant (do s ← consume_str_constant; return (str s))
      (do z ← consume_int_constant; return (int z))

unfoldable pub select_list : ℕ → Op Lexer (List Text)
unfolding separated get_field
select_list = separated get_field

unfoldable pub table_list : ℕ → Op Lexer (List Text)
unfolding separated consume_id
table_list = separated consume_id

unfoldable pub field_list : ℕ → Op Lexer (List Text)
unfolding separated get_field
field_list = separated get_field

unfoldable pub const_list : ℕ → Op Lexer (List Constant)
unfolding separated parse_constant
const_list = separated parse_constant

unfoldable pub parse_expression : Op Lexer Expression
unfolding match_id get_field parse_constant
parse_expression =
    when match_id (do f ← get_field; return (of_field f))
      (do c ← parse_constant; return (of_constant c))

unfoldable pub parse_term : Op Lexer Term
unfolding parse_expression consume_delimeter make_term
parse_term = do
  lhs ← parse_expression
  consume_delimeter b'='
  rhs ← parse_expression
  return (make_term lhs rhs)

unfoldable pub parse_predicate : ℕ → Op Lexer Predicate
unfolding parse_term match_keyword consume_keyword conjoin_with
parse_predicate zero = throw deadlock
parse_predicate (suc n) = do
  t ← parse_term
  when (match_keyword (text "and"))
      (do
        consume_keyword (text "and")
        p ← parse_predicate n
        return (conjoin_with (record { terms = t ∷ [] }) p))
      (return (record { terms = t ∷ [] }))

-- `if (match_keyword("where")) …`, which three statements share.
where_clause : ℕ → Op Lexer Predicate
unfolding match_keyword consume_keyword parse_predicate
where_clause n =
    when (match_keyword (text "where")) (do consume_keyword (text "where"); parse_predicate n)
      (return (record { terms = [] }))

-- The schema is a null pointer when a field is added to it.
unfoldable pub parse_field_type : Text → Op Lexer Schema
unfolding match_keyword consume_keyword consume_delimeter consume_int_constant
parse_field_type fldname =
    when (match_keyword (text "int")) (do consume_keyword (text "int"); throw undefined)
      (do
        consume_keyword (text "varchar")
        consume_delimeter b'('
        strlen ← consume_int_constant
        consume_delimeter b')'
        throw undefined)

unfoldable pub field_def : Op Lexer Schema
unfolding get_field parse_field_type
field_def = do fldname ← get_field; parse_field_type fldname

unfoldable pub field_defs : ℕ → Op Lexer Schema
unfolding field_def match_delimeter consume_delimeter add_all
field_defs zero = throw deadlock
field_defs (suc n) = do
  sch ← field_def
  when (match_delimeter b',')
      (do consume_delimeter b','; sch_2 ← field_defs n; λ s. (add_all sch sch_2, s)) (return sch)

unfoldable pub parse_query : ℕ → Op Lexer QueryData
unfolding consume_keyword select_list table_list where_clause
parse_query n = do
  consume_keyword (text "select")
  fields ← select_list n
  consume_keyword (text "from")
  tables ← table_list n
  pred ← where_clause n
  return (record { fields = fields; tables = tables; pred = pred })

unfoldable pub parse_delete : ℕ → Op Lexer DeleteData
unfolding consume_keyword consume_id where_clause
parse_delete n = do
  consume_keyword (text "delete")
  consume_keyword (text "from")
  tblname ← consume_id
  pred ← where_clause n
  return (record { tblname = tblname; pred = pred })

unfoldable pub parse_insert : ℕ → Op Lexer InsertData
unfolding consume_keyword consume_id consume_delimeter field_list const_list
parse_insert n = do
  consume_keyword (text "insert")
  consume_keyword (text "into")
  tblname ← consume_id
  consume_delimeter b'('
  fields ← field_list n
  consume_delimeter b')'
  consume_keyword (text "values")
  consume_delimeter b'('
  vals ← const_list n
  consume_delimeter b')'
  return (record { tblname = tblname; fields = fields; vals = vals })

unfoldable pub parse_modify : ℕ → Op Lexer ModifyData
unfolding consume_keyword consume_id get_field consume_delimeter parse_expression where_clause
parse_modify n = do
  consume_keyword (text "update")
  tblname ← consume_id
  consume_keyword (text "set")
  fldname ← get_field
  consume_delimeter b'='
  newval ← parse_expression
  pred ← where_clause n
  return (record { tblname = tblname; fldname = fldname; newval = newval; pred = pred })

unfoldable pub create_table : ℕ → Op Lexer CreateTableData
unfolding consume_keyword consume_id consume_delimeter field_defs
create_table n = do
  consume_keyword (text "table")
  tblname ← consume_id
  consume_delimeter b'('
  sch ← field_defs n
  consume_delimeter b')'
  return (record { tblname = tblname; sch = sch })

unfoldable pub create_view : ℕ → Op Lexer CreateViewData
unfolding consume_keyword consume_id parse_query
create_view n = do
  consume_keyword (text "view")
  viewname ← consume_id
  consume_keyword (text "as")
  qd ← parse_query n
  return (record { viewname = viewname; qrydata = qd })

-- The arguments do not stand in the order of the constructor's parameters.
unfoldable pub create_index : Op Lexer CreateIndexData
unfolding consume_keyword consume_id consume_delimeter get_field make_create_index_data
create_index = do
  consume_keyword (text "index")
  idxname ← consume_id
  consume_keyword (text "on")
  tblname ← consume_id
  consume_delimeter b'('
  fldname ← get_field
  consume_delimeter b')'
  return (make_create_index_data idxname tblname fldname)

abbrev pub as_command : {A : Type 0} → (A → Command) → Op Lexer A → Op Lexer Command
as_command f m = do a ← m; return (f a)

create_cmd : ℕ → Op Lexer Command
unfolding match_keyword create_table create_view create_index
create_cmd n = when (match_keyword (text "table")) (as_command create_table_cmd (create_table n)) (
    when (match_keyword (text "view")) (as_command create_view_cmd (create_view n))
      (as_command create_index_cmd create_index))

unfoldable pub update_cmd : ℕ → Op Lexer Command
unfolding match_keyword consume_keyword parse_insert parse_delete parse_modify create_cmd
update_cmd n = when (match_keyword (text "insert")) (as_command insert_cmd (parse_insert n)) (
    when (match_keyword (text "delete")) (as_command delete_cmd (parse_delete n)) (
      when (match_keyword (text "update")) (as_command modify_cmd (parse_modify n))
        (do consume_keyword (text "create"); create_cmd n)))
