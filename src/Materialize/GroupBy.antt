-- ===== src/Materialize/GroupBy.antt =====
-- Groups of rows: src/libs/dbcore/materialize/group_value.h and group_by_scan.h. The loop of `next` has a
-- bound on its rounds.
pub mod Fresh
pub mod Groups
pub mod Steps
pub mod Rows
use myc_db.Prelude.{
  ℕ, zero, suc, Bool, true, false, List, [], ◌∷◌, Option, none, some, if◌then◌else◌, ℤ,
  out_of_range, runtime, undefined, deadlock, Result, ok, err, ◌>>=◌, Op, bind, return, lift, Text,
  same_text,
}
use myc_db.Query.Constant.{Constant, as_int, as_str, same_constant}
use myc_db.Scan.{Scan}
use myc_db.Scan.Project.{is_listed}
use myc_db.Materialize.Aggregate.{CmpFn, CountFn, cmp_fn, count_fn}

-- `m_vals`: a map from names to values.
abbrev pub GroupValue : Type 0
GroupValue = List (Text × Constant)

unfoldable pub put_val : GroupValue → Text → Constant → GroupValue
put_val [] name v = (name, v) ∷ []
put_val ((n, w) ∷ l) name v = if same_text n name then (n, v) ∷ l else (n, w) ∷ put_val l name v

-- The loop of the constructor.
unfoldable pub read_group : (Text → Result Constant) → List Text → GroupValue → Result GroupValue
unfolding put_val
read_group get_val [] vals = ok vals
read_group get_val (f ∷ fs) vals = do v ← get_val f; read_group get_val fs (put_val vals f v)

unfoldable pub make_group_value : (Text → Result Constant) → List Text → Result GroupValue
unfolding read_group
make_group_value get_val fields = read_group get_val fields []

-- `m_vals.at(fldname)`.
unfoldable pub group_value_at : GroupValue → Text → Result Constant
group_value_at [] name = err out_of_range
group_value_at ((n, v) ∷ l) name = if same_text n name then ok v else group_value_at l name

-- `equals`: the values of the first map against those of the second.
unfoldable pub same_group : GroupValue → GroupValue → Result Bool
unfolding group_value_at same_constant
same_group [] other = ok true
same_group ((n, v) ∷ l) other = do
  w ← group_value_at other n
  elim (same_constant v w) [ true ↦ same_group l other | false ↦ ok false ]

-- `i_aggregate_fn`, with a constructor for each class.
pub data AggrFn : Type 0 where
  cmp : CmpFn → AggrFn
  count : CountFn → AggrFn

unfoldable pub fn_first : {S : Type 0} → Scan S → S → Op AggrFn (Unit {0})
unfolding cmp_fn count_fn
fn_first sc s (cmp f) = let r = (cmp_fn sc).process_first s f in (r.0, cmp r.1)
fn_first sc s (count f) = let r = (count_fn sc).process_first s f in (r.0, count r.1)

unfoldable pub fn_next : {S : Type 0} → Scan S → S → Op AggrFn (Unit {0})
unfolding cmp_fn count_fn
fn_next sc s (cmp f) = let r = (cmp_fn sc).process_next s f in (r.0, cmp r.1)
fn_next sc s (count f) = let r = (count_fn sc).process_next s f in (r.0, count r.1)

unfoldable pub fn_name : {S : Type 0} → Scan S → AggrFn → Text
unfolding cmp_fn count_fn
fn_name sc (cmp f) = (cmp_fn sc).field_name f
fn_name sc (count f) = (count_fn sc).field_name f

unfoldable pub fn_value : {S : Type 0} → Scan S → AggrFn → Constant
unfolding cmp_fn count_fn
fn_value sc (cmp f) = (cmp_fn sc).value f
fn_value sc (count f) = (count_fn sc).value f

-- What is left of a loop over the functions after the call on the first one.
abbrev pub then_each :
    List AggrFn
    → Result (Unit {0}) × List AggrFn
    → Result (Unit {0}) × AggrFn
    → Result (Unit {0}) × List AggrFn
then_each fs rest (err e, f) = (err e, f ∷ fs)
then_each fs rest (ok u, f) = (rest.0, f ∷ rest.1)

-- `for (auto& fn : m_aggr_funcs) …`, up to the first exception.
unfoldable pub each_fn : Op AggrFn (Unit {0}) → Op (List AggrFn) (Unit {0})
each_fn call [] = (ok tt, [])
each_fn call (f ∷ fs) = then_each fs (each_fn call fs) (call f)

unfoldable pub find_fn : {S : Type 0} → Scan S → List AggrFn → Text → Result Constant
unfolding fn_name fn_value
find_fn sc [] name = err runtime
find_fn sc (f ∷ fs) name =
    if same_text (fn_name sc f) name then ok (fn_value sc f) else find_fn sc fs name

unfoldable pub has_fn : {S : Type 0} → Scan S → List AggrFn → Text → Bool
unfolding fn_name
has_fn sc [] name = false
has_fn sc (f ∷ fs) name = if same_text (fn_name sc f) name then true else has_fn sc fs name

pub record GroupByScan (S : Type 0) : Type 0 where
  pub base : S
  pub aggr_funcs : List AggrFn
  pub group_val : Option GroupValue
  pub more_groups : Bool

abbrev pub on_base : {A S : Type 0} → Op S A → Op (GroupByScan S) A
on_base call g = ((call g.base).0, record g { base = (call g.base).1 })

abbrev pub on_fns : {S : Type 0} → (S → Op AggrFn (Unit {0})) → Op (GroupByScan S) (Unit {0})
on_fns call g = let r = each_fn (call g.base) g.aggr_funcs in (r.0, record g { aggr_funcs = r.1 })

abbrev pub put_more : {S : Type 0} → Bool → Op (GroupByScan S) (Unit {0})
put_more b g = (ok tt, record g { more_groups = b })

abbrev pub put_group : {S : Type 0} → GroupValue → Op (GroupByScan S) (Unit {0})
put_group v g = (ok tt, record g { group_val = some v })

module _ {S : Type 0} (sc : Scan S) (group_fields : List Text) where
  -- The values of the group's fields on the row that the scan below stands on.
  abbrev pub current_group : Op (GroupByScan S) GroupValue
  current_group g = (make_group_value (λ f. sc.get_val f g.base) group_fields, g)

  unfoldable pub group_first : Op (GroupByScan S) (Unit {0})
  group_first = bind (on_base sc.before_first) λ _. bind (on_base sc.next) put_more

  -- The constructor.
  unfoldable pub make_group_by_scan : S → List AggrFn → Result (Unit {0}) × GroupByScan S
  unfolding group_first
  make_group_by_scan s fns =
      group_first (record { base = s; aggr_funcs = fns; group_val = none; more_groups = false })

  -- `while (more_groups = m_scan->next())`.
  unfoldable pub collect : GroupValue → ℕ → Op (GroupByScan S) (Unit {0})
  unfolding make_group_value same_group fn_next each_fn
  collect v zero g = (err deadlock, g)
  collect v (suc rounds) g =
      bind (on_base sc.next)
        (λ more. bind (put_more more) λ _. elim more [
          | false ↦ return tt
          | true ↦ bind current_group λ w. bind (lift (same_group v w)) λ same. elim same [
            | false ↦ return tt
            | true ↦ bind (on_fns (fn_next sc)) λ _. collect v rounds
          ]
        ])
        g

  -- The rest of `next`, where there are more groups.
  unfoldable pub take_group : ℕ → Op (GroupByScan S) Bool
  unfolding make_group_value fn_first each_fn collect
  take_group rounds =
      bind (on_fns (fn_first sc)) λ _.
        bind current_group λ v. bind (put_group v) λ _. bind (collect v rounds) λ _. return true

  unfoldable pub group_next : ℕ → Op (GroupByScan S) Bool
  unfolding take_group
  group_next rounds g = elim g.more_groups [ false ↦ (ok false, g) | true ↦ take_group rounds g ]

  unfoldable pub group_get_val : Text → GroupByScan S → Result Constant
  unfolding is_listed group_value_at find_fn
  group_get_val f g =
      if is_listed group_fields f
      then (elim g.group_val [ none ↦ err undefined | some v ↦ group_value_at v f ])
      else find_fn sc g.aggr_funcs f

  unfoldable pub group_has_field : Text → GroupByScan S → Bool
  unfolding is_listed has_fn
  group_has_field f g = if is_listed group_fields f then true else has_fn sc g.aggr_funcs f

  unfoldable pub group_by_scan : ℕ → Scan (GroupByScan S)
  unfolding group_first group_next group_get_val group_has_field as_int as_str
  group_by_scan rounds = record {
    before_first = group_first;
    next = group_next rounds;
    get_int = λ f g. group_get_val f g >>= as_int;
    get_str = λ f g. group_get_val f g >>= as_str;
    get_val = group_get_val;
    has_field = λ f g. ok (group_has_field f g);
    close = on_base sc.close;
  }
