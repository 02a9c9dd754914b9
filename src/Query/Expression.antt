-- ===== src/Query/Expression.antt =====
-- An expression, a constant or the name of a field: src/libs/dbcore/query/expression.h. Two pointers
-- say which; an expression that was moved from has neither.
use myc_db.Prelude.{Bool, true, false, Option, none, some, undefined, Result, ok, err, Text}
use myc_db.Query.Constant.{Constant, show_constant}
use myc_db.Record.Schema.{Schema, has_field}

pub record Expression : Type 0 where
  pub val : Option Constant
  pub fldname : Option Text

abbrev pub of_constant : Constant → Expression
of_constant c = record { val = some c; fldname = none }

abbrev pub of_field : Text → Expression
of_field f = record { val = none; fldname = some f }

-- The copy constructor, which prefers the field name.
unfoldable pub copy_expression : Expression → Expression
copy_expression e = elim e.fldname [
  | some f ↦ of_field f
  | none ↦ elim e.val [ some c ↦ of_constant c | none ↦ record { val = none; fldname = none } ]
]

-- `operator=`, which prefers the constant.
unfoldable pub assign_expression : Expression → Expression
assign_expression e = elim e.val [
  | some c ↦ of_constant c
  | none ↦ elim e.fldname [ some f ↦ of_field f | none ↦ record { val = none; fldname = none } ]
]

-- `*m_fldname`.
unfoldable pub deref_name : Expression → Result Text
deref_name e = elim e.fldname [ some f ↦ ok f | none ↦ err undefined ]

-- `evaluate`: the row that a scan stands on gives the value of a field.
unfoldable pub evaluate : (Text → Result Constant) → Expression → Result Constant
unfolding deref_name
evaluate get_val e = elim e.val [
  | some c ↦ ok c
  | none ↦ elim (deref_name e) [ ok f ↦ get_val f | err x ↦ err x ]
]

unfoldable pub is_field_name : Expression → Bool
is_field_name e = elim e.fldname [ some f ↦ true | none ↦ false ]

-- Without a constant the message of the exception follows the null pointer.
unfoldable pub as_constant : Expression → Result Constant
as_constant e = elim e.val [ some c ↦ ok c | none ↦ err undefined ]

unfoldable pub as_field_name : Expression → Result Text
unfolding deref_name
as_field_name e = deref_name e

unfoldable pub applies_to : Expression → Schema → Result Bool
unfolding deref_name has_field
applies_to e sch = elim e.val [
  | some c ↦ ok true
  | none ↦ elim (deref_name e) [ ok f ↦ ok (has_field sch f) | err x ↦ err x ]
]

unfoldable pub show_expression : Expression → Result Text
unfolding deref_name show_constant
show_expression e = elim e.val [ some c ↦ ok (show_constant c) | none ↦ deref_name e ]
