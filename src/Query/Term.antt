-- ===== src/Query/Term.antt =====
-- A term `lhs = rhs` of a predicate: src/libs/dbcore/query/term.h.
use myc_db.Prelude.{
  ℕ, ◌-◌, ◌^◌, ◌%◌, ltb, signed, Bool, false, ◌&&◌, not, [], ◌++◌, if◌then◌else◌, ℤ, pos, Result,
  ok, ◌>>=◌, Text, text, same_text,
}
use myc_db.Query.Constant.{Constant, int, same_constant}
use myc_db.Query.Expression.{
  Expression, copy_expression, evaluate, is_field_name, as_constant, as_field_name, applies_to,
  show_expression,
}
use myc_db.Record.Schema.{Schema}

pub record Term : Type 0 where
  pub lhs : Expression
  pub rhs : Expression

unfoldable pub make_term : Expression → Expression → Term
unfolding copy_expression
make_term lhs rhs = record { lhs = copy_expression lhs; rhs = copy_expression rhs }

-- `get_val` is the row that the scan stands on.
unfoldable pub is_satisfied : (Text → Result Constant) → Term → Result Bool
unfolding evaluate same_constant
is_satisfied get_val t = do
  a ← evaluate get_val t.lhs
  b ← evaluate get_val t.rhs
  ok (same_constant a b)

-- `e.is_field_name() && e.as_field_name() == fldname`.
unfoldable pub names : Expression → Text → Result Bool
unfolding is_field_name as_field_name
names e fldname =
    if is_field_name e then as_field_name e >>= (λ f. ok (same_text f fldname)) else ok false

-- The conversion of a `size_t` to an `int`.
abbrev pub to_int : ℕ → ℤ
to_int n = signed (n % 2 ^ 32)

-- `distinct_values` is the plan's estimate for a field.
unfoldable pub calculate_reduction : (Text → Result ℕ) → Term → Result ℤ
unfolding is_field_name as_field_name as_constant same_constant
calculate_reduction distinct_values t =
    if is_field_name t.lhs && is_field_name t.rhs
    then (do
      f ← as_field_name t.lhs
      g ← as_field_name t.rhs
      m ← distinct_values f
      n ← distinct_values g
      ok (to_int (if ltb m n then n else m)))
    else if is_field_name t.lhs
    then (do f ← as_field_name t.lhs; n ← distinct_values f; ok (to_int n))
    else if is_field_name t.rhs
    then (do f ← as_field_name t.rhs; n ← distinct_values f; ok (to_int n))
    else (do
      a ← as_constant t.lhs
      b ← as_constant t.rhs
      ok (if same_constant a b then pos 1 else pos (2 ^ 31 - 1)))

unfoldable pub equates_with_constant : Term → Text → Result Constant
unfolding names is_field_name as_constant
equates_with_constant t fldname = do
  left ← names t.lhs fldname
  if left && not (is_field_name t.rhs) then as_constant t.rhs else do
    right ← names t.rhs fldname
    if right && not (is_field_name t.lhs) then as_constant t.lhs else ok (int (pos 0))

unfoldable pub equates_with_field : Term → Text → Result Text
unfolding names is_field_name as_field_name
equates_with_field t fldname = do
  left ← names t.lhs fldname
  if left && is_field_name t.rhs then as_field_name t.rhs else do
    right ← names t.rhs fldname
    if right && is_field_name t.lhs then as_field_name t.lhs else ok []

unfoldable pub term_applies_to : Term → Schema → Result Bool
unfolding applies_to
term_applies_to t sch = do a ← applies_to t.lhs sch; if a then applies_to t.rhs sch else ok false

unfoldable pub show_term : Term → Result Text
unfolding show_expression
show_term t = do a ← show_expression t.lhs; b ← show_expression t.rhs; ok (a ++ text "=" ++ b)
