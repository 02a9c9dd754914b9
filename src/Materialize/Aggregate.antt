-- ===== src/Materialize/Aggregate.antt =====
-- The aggregation functions: src/libs/dbcore/materialize/fn and aggregate_fn_factory.cpp. They read the
-- row on which a scan stands, and keep a state of their own.
use myc_db.Prelude.{
  ◌^◌, ◌-◌, Bool, true, false, ◌++◌, ℤ, pos, negsuc, ok, Op, bind, lift, Text, text,
}
use myc_db.File.Page.{add_int}
use myc_db.Query.Constant.{Constant, int, less}
use myc_db.Scan.{Scan}

-- The methods of `i_aggregate_fn` that change its state `F`, over a scan in a state `S`.
pub record AggregateFn (S F : Type 0) : Type 0 where
  pub process_first : S → Op F (Unit {0})
  pub process_next : S → Op F (Unit {0})
  pub field_name : F → Text
  pub value : F → Constant

pub record CmpFn : Type 0 where
  pub fldname : Text
  pub prefix : Text
  pub cmp_func : Constant → Constant → Bool
  pub val : Constant
  pub initial_val : Constant

-- The constructor leaves `m_val` at the value of an empty `constant`.
unfoldable pub make_cmp_fn : Text → Text → (Constant → Constant → Bool) → Constant → CmpFn
make_cmp_fn name front cmp initial = record {
  fldname = name;
  prefix = front;
  cmp_func = cmp;
  val = int (pos 0);
  initial_val = initial;
}

unfoldable pub keep_better : Constant → Op CmpFn (Unit {0})
keep_better new_val f =
    (ok tt, elim (f.cmp_func new_val f.val) [ true ↦ record f { val = new_val } | false ↦ f ])

unfoldable pub cmp_fn : {S : Type 0} → Scan S → AggregateFn S CmpFn
unfolding keep_better
cmp_fn sc = record {
  process_first =
      λ s f. bind (lift (sc.get_val f.fldname s)) (λ v g. (ok tt, record g { val = v })) f;
  process_next = λ s f. bind (lift (sc.get_val f.fldname s)) keep_better f;
  field_name = λ f. f.prefix ++ f.fldname;
  value = λ f. f.val;
}

pub record CountFn : Type 0 where
  pub fldname : Text
  pub count : ℤ

unfoldable pub make_count_fn : Text → CountFn
make_count_fn name = record { fldname = name; count = pos 0 }

-- The overflow of the count is undefined.
unfoldable pub count_fn : {S : Type 0} → Scan S → AggregateFn S CountFn
unfolding add_int
count_fn sc = record {
  process_first = λ s f. (ok tt, record f { count = pos 1 });
  process_next =
      λ s f. bind (lift (add_int f.count (pos 1))) (λ n g. (ok tt, record g { count = n })) f;
  field_name = λ f. text "CountOf_" ++ f.fldname;
  value = λ f. int f.count;
}

unfoldable pub create_max_func : Text → CmpFn
unfolding make_cmp_fn less
create_max_func name =
    make_cmp_fn name (text "MaxOf_") (λ c1 c2. less c2 c1) (int (negsuc (2 ^ 31 - 1)))

unfoldable pub create_min_func : Text → CmpFn
unfolding make_cmp_fn less
create_min_func name = make_cmp_fn name (text "MinOf_") less (int (pos (2 ^ 31 - 1)))

unfoldable pub create_count_func : Text → CountFn
unfolding make_count_fn
create_count_func = make_count_fn

unfoldable pub create_custom_compare_func :
    Text → Text → (Constant → Constant → Bool) → Constant → CmpFn
unfolding make_cmp_fn
create_custom_compare_func = make_cmp_fn
