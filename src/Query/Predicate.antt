-- ===== src/Query/Predicate.antt =====
-- A predicate, the conjunction of its terms: src/libs/dbcore/query/predicate.h.
use myc_db.Prelude.{
  Bool, true, false, not, List, [], ◌∷◌, ◌++◌, Option, none, some, if◌then◌else◌, ℤ, pos, ◌*ℤ◌,
  ◌==ℤ◌, ℕ, Result, ok, ◌>>=◌, Text, text,
}
use myc_db.Query.Constant.{Constant, int, as_int, as_str, checked}
use myc_db.Query.Term.{
  Term, is_satisfied, calculate_reduction, equates_with_constant, equates_with_field,
  term_applies_to, show_term,
}
use myc_db.Record.Schema.{Schema, empty_schema, add_all}

pub record Predicate : Type 0 where
  pub terms : List Term

unfoldable pub conjoin_with : Predicate → Predicate → Predicate
conjoin_with p pred = record { terms = p.terms ++ pred.terms }

-- The loop stops at the first term that does not hold.
unfoldable pub all_satisfied : (Text → Result Constant) → List Term → Result Bool
unfolding is_satisfied
all_satisfied get_val [] = ok true
all_satisfied get_val (t ∷ ts) = do
  b ← is_satisfied get_val t
  elim b [ true ↦ all_satisfied get_val ts | false ↦ ok false ]

unfoldable pub holds : (Text → Result Constant) → Predicate → Result Bool
unfolding all_satisfied
holds get_val p = all_satisfied get_val p.terms

unfoldable pub reduce : (Text → Result ℕ) → ℤ → List Term → Result ℤ
unfolding calculate_reduction checked
reduce distinct_values factor [] = ok factor
reduce distinct_values factor (t ∷ ts) = do
  n ← calculate_reduction distinct_values t
  m ← checked (factor *ℤ n)
  reduce distinct_values m ts

unfoldable pub reduction : (Text → Result ℕ) → Predicate → Result ℤ
unfolding reduce
reduction distinct_values p = reduce distinct_values (pos 1) p.terms

-- The terms that pass a test, in their order.
unfoldable pub select : (Term → Result Bool) → List Term → Result (List Term)
select test [] = ok []
select test (t ∷ ts) = do b ← test t; rest ← select test ts; ok (if b then t ∷ rest else rest)

-- The null pointer stands for a predicate without terms.
unfoldable pub unless_empty : List Term → Option Predicate
unless_empty [] = none
unless_empty (t ∷ ts) = some (record { terms = t ∷ ts })

unfoldable pub select_sub_pred : Predicate → Schema → Result (Option Predicate)
unfolding select unless_empty term_applies_to
select_sub_pred p sch = do ts ← select (λ t. term_applies_to t sch) p.terms; ok (unless_empty ts)

unfoldable pub spans : Schema → Schema → Schema → Term → Result Bool
unfolding term_applies_to
spans sch1 sch2 newsch t = do
  a ← term_applies_to t sch1
  if a
      then ok false
      else do b ← term_applies_to t sch2; if b then ok false else term_applies_to t newsch

unfoldable pub join_sub_pred : Predicate → Schema → Schema → Result (Option Predicate)
unfolding select unless_empty spans add_all
join_sub_pred p sch1 sch2 = do
  s ← add_all empty_schema sch1
  newsch ← add_all s sch2
  ts ← select (spans sch1 sch2 newsch) p.terms
  ok (unless_empty ts)

-- `c.as_int() != 0 || c.as_str() != ""`, where `c` holds an `int` or a string.
unfoldable pub is_found : Constant → Result Bool
unfolding as_int as_str
is_found c = do
  z ← as_int c
  if not (z ==ℤ pos 0)
      then ok true
      else do s ← as_str c; ok (elim s [ [] ↦ false | ◌∷◌ a t ↦ true ])

unfoldable pub first_constant : List Term → Text → Result Constant
unfolding equates_with_constant is_found
first_constant [] fldname = ok (int (pos 0))
first_constant (t ∷ ts) fldname = do
  c ← equates_with_constant t fldname
  b ← is_found c
  elim b [ true ↦ ok c | false ↦ first_constant ts fldname ]

unfoldable pub find_constant : Predicate → Text → Result Constant
unfolding first_constant
find_constant p fldname = first_constant p.terms fldname

unfoldable pub first_field : List Term → Text → Result Text
unfolding equates_with_field
first_field [] fldname = ok []
first_field (t ∷ ts) fldname = do
  s ← equates_with_field t fldname
  elim s [ [] ↦ first_field ts fldname | ◌∷◌ a r ↦ ok (a ∷ r) ]

unfoldable pub find_field : Predicate → Text → Result Text
unfolding first_field
find_field p fldname = first_field p.terms fldname

show_rest : List Term → Result Text
unfolding show_term
show_rest [] = ok []
show_rest (t ∷ ts) = do a ← show_term t; b ← show_rest ts; ok (text " and " ++ a ++ b)

unfoldable pub show_predicate : Predicate → Result Text
unfolding show_term show_rest
show_predicate p = elim p.terms [
  | [] ↦ ok []
  | ◌∷◌ t ts ↦ show_term t >>= λ a. show_rest ts >>= λ b. ok (a ++ b)
]
