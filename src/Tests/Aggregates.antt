-- ===== src/Tests/Aggregates.antt =====
-- A scan over values of one field, whose state is the value it stands on.
use myc_db.Prelude.{
  none, ◌≡◌, refl, Bool, true, false, List, [], ◌∷◌, map, pos, Result, ok, err, runtime, return,
  text, same_text,
}
use myc_db.File.Page.{add_int}
use myc_db.Query.Constant.{Constant, int}
use myc_db.Scan.{Scan}
use myc_db.Scan.Contract.{Row}
use myc_db.Scan.Passes.{Passes}
use myc_db.Scan.Project.{is_listed}
use myc_db.Materialize.Aggregate.{CmpFn, cmp_fn, count_fn, create_max_func, create_min_func}
use myc_db.Materialize.Extremes.{
  process_group, HasValues, none_left, one_more, IsMax, IsMin, create_max_func-create_min_func,
}
use myc_db.Materialize.GroupBy.{
  GroupValue, make_group_value, group_value_at, same_group, AggrFn, count, fn_first, fn_next,
  each_fn, find_fn, fn_name, fn_value, GroupByScan,
}
use myc_db.Materialize.GroupBy.Groups.{groups, rows_of}
use myc_db.Tests.Scans.{Cursor, row_of}

abbrev of_values : Scan Constant
of_values = record {
  before_first = return tt;
  next = return false;
  get_int = λ f c. err runtime;
  get_str = λ f c. err runtime;
  get_val = λ f c. ok c;
  has_field = λ f c. ok true;
  close = return tt;
}

abbrev three_values : List Constant
three_values = int (pos 4) ∷ int (pos 7) ∷ int (pos 5) ∷ []

two_more :
    HasValues of_values (text "a") (int (pos 7) ∷ int (pos 5) ∷ []) (int (pos 7) ∷ int (pos 5) ∷ [])
two_more = one_more _ _ _ _ refl (one_more _ _ _ _ refl none_left)

abbrev max_of_a : Constant → CmpFn
max_of_a c = record (create_max_func (text "a")) { val = c }

abbrev min_of_a : Constant → CmpFn
min_of_a c = record (create_min_func (text "a")) { val = c }

create_max_func-create_min_func_example :
    (m : Constant) × (n : Constant) × (process_group
        (cmp_fn of_values)
        (int (pos 4))
        (int (pos 7) ∷ int (pos 5) ∷ [])
        (max_of_a (int (pos 9)))
      ≡ (ok tt, max_of_a m))
    × IsMax three_values m
    × (process_group
          (cmp_fn of_values)
          (int (pos 4))
          (int (pos 7) ∷ int (pos 5) ∷ [])
          (min_of_a (int (pos 9)))
        ≡ (ok tt, min_of_a n))
    × IsMin three_values n
create_max_func-create_min_func_example =
    create_max_func-create_min_func of_values (text "a") (int (pos 4)) (int (pos 4)) (int (pos 9))
      (int (pos 7) ∷ int (pos 5) ∷ []) (int (pos 7) ∷ int (pos 5) ∷ []) refl two_more

-- The rows 4, 4 and 5, counted by their field.
abbrev three_rows : List Row
three_rows = row_of (pos 4) ∷ row_of (pos 4) ∷ row_of (pos 5) ∷ []

abbrev counts : List AggrFn
counts = count (record { fldname = text "a"; count = pos 0 }) ∷ []

abbrev group_of : Result Constant → GroupValue
group_of (ok v) = (text "a", v) ∷ []
group_of (err e) = []

abbrev group_key : Row → GroupValue
group_key r = group_of (r (text "a"))

abbrev alike_by : Result Bool → Bool
alike_by (ok b) = b
alike_by (err e) = false

abbrev alike : Row → Row → Bool
alike q r = alike_by (same_group (group_key q) (group_key r))

abbrev unread : GroupByScan Cursor
unread = record { base = ([], none); aggr_funcs = counts; group_val = none; more_groups = false }

-- Two groups: 4, twice, and 5, once.
two_groups :
    map {B = Result Constant × Result Constant}
      (λ r. (r (text "a"), r (text "CountOf_a")))
      (rows_of
        (text "a" ∷ [])
        counts
        group_key
        alike
        (groups (text "a" ∷ []) counts group_key alike three_rows))
    ≡ (ok (int (pos 4)), ok (int (pos 2))) ∷ (ok (int (pos 5)), ok (int (pos 1))) ∷ []
unfolding same_group make_group_value same_text each_fn fn_first fn_next count_fn add_int is_listed
    group_value_at find_fn fn_name fn_value
two_groups = refl
