-- ===== src/Query/Plan.antt =====
-- The estimates of plans: src/libs/dbcore/query/plan, and src/libs/dbcore/index/planners for the plans
-- over an index. `open` is left out: for selections and projections it hands a scan to a constructor
-- that takes another kind of pointer.
use myc_db.Prelude.{
  ℕ, ℤ, ◌+◌, ◌*◌, ◌%◌, min, List, [], ◌∷◌, Option, none, some, not, if◌then◌else◌, size_of,
  size_mod, undefined, Result, ok, err, ◌>>=◌, Text, text, same_text,
}
use myc_db.Metadata.StatInfo.{
  StatInfo, IndexInfo, stat_blocks, stat_records, stat_distinct, index_blocks, index_records,
  index_distinct, divide_size,
}
use myc_db.Query.Constant.{show_constant}
use myc_db.Query.Predicate.{Predicate, reduction, find_constant, find_field}
use myc_db.Record.Layout.{Layout}
use myc_db.Record.Schema.{Schema, has_field, add_from, add_all}
pub mod Bounds

-- `i_plan`.
pub record Plan : Type 0 where
  pub blocks_accessed : Result ℕ
  pub records : Result ℕ
  pub distinct_values : Text → Result ℕ
  pub schema : Result Schema

unfoldable pub table_plan : StatInfo → Layout → Plan
unfolding stat_blocks stat_records stat_distinct
table_plan s l = record {
  blocks_accessed = ok (stat_blocks s);
  records = ok (stat_records s);
  distinct_values = λ f. ok (stat_distinct s f);
  schema = ok l.schema;
}

-- The fewer of the values of two fields that a predicate makes equal.
unfoldable pub distinct_pair : Plan → Text → Text → Result ℕ
distinct_pair p fldname [] = p.distinct_values fldname
distinct_pair p fldname (c ∷ other) = do
  m ← p.distinct_values fldname
  n ← p.distinct_values (c ∷ other)
  ok (min m n)

unfoldable pub select_plan : Plan → Predicate → Plan
unfolding reduction divide_size find_constant find_field show_constant distinct_pair
select_plan p pred = record p {
  records = p.records >>= λ n. reduction p.distinct_values pred >>= λ k. divide_size n (size_of k);
  distinct_values = λ f. find_constant pred f >>= λ c.
      if not (same_text (show_constant c) (text "0"))
      then ok 1
      else find_field pred f >>= distinct_pair p f;
}

-- `m_sch->…`, where `m_sch` may be a null pointer.
abbrev pub into : Option Schema → (Schema → Result Schema) → Result (Option Schema)
into none add = err undefined
into (some s) add = add s >>= λ t. ok (some t)

abbrev pub pointee : Option Schema → Result Schema
pointee none = err undefined
pointee (some s) = ok s

-- A product over the schema that the constructor has left. No result is given for a field of neither.
unfoldable pub product_plan : Plan → Plan → Option Schema → Plan
unfolding has_field
product_plan l r sch = record {
  blocks_accessed = (do
    a ← l.blocks_accessed
    n ← l.records
    b ← r.blocks_accessed
    ok ((a + n * b) % size_mod));
  records = (do m ← l.records; n ← r.records; ok (m * n % size_mod));
  distinct_values = λ f. l.schema >>= λ s.
      if has_field s f
      then l.distinct_values f
      else r.schema >>= λ t. if has_field t f then r.distinct_values f else err undefined;
  schema = pointee sch;
}

-- The constructors of a product and of a join add the fields to a schema that was never made.
unfoldable pub add_both : Plan → Plan → Result (Option Schema)
unfolding add_all
add_both l r = do
  s ← l.schema
  m ← into none (λ x. add_all x s)
  t ← r.schema
  into m (λ x. add_all x t)

unfoldable pub make_product_plan : Plan → Plan → Result Plan
unfolding product_plan add_both
make_product_plan l r = add_both l r >>= λ sch. ok (product_plan l r sch)

unfoldable pub project_plan : Plan → Plan
project_plan p = p

unfoldable pub add_listed : Option Schema → List Text → Plan → Result (Option Schema)
unfolding add_from
add_listed m [] p = ok m
add_listed m (f ∷ fs) p = do s ← p.schema; n ← into m (λ x. add_from x f s); add_listed n fs p

-- The constructor: every estimate of a projection is that of the plan below.
unfoldable pub make_project_plan : Plan → List Text → Result Plan
unfolding add_listed project_plan
make_project_plan p fieldlist = add_listed none fieldlist p >>= λ sch. ok (project_plan p)

unfoldable pub index_select_plan : (ℤ → ℤ → Result ℕ) → Plan → IndexInfo → Plan
unfolding index_blocks index_records index_distinct
index_select_plan btree_search_cost p i = record {
  blocks_accessed = (do
    b ← index_blocks btree_search_cost i
    n ← index_records i
    ok ((b + n) % size_mod));
  records = index_records i;
  distinct_values = λ f. ok (index_distinct i f);
  schema = p.schema;
}

abbrev pub index_join_records : Plan → IndexInfo → Result ℕ
index_join_records l i = l.records >>= λ m. index_records i >>= λ n. ok (m * n % size_mod)

unfoldable pub index_join_plan : (ℤ → ℤ → Result ℕ) → Plan → Plan → IndexInfo → Option Schema → Plan
unfolding index_blocks index_records has_field
index_join_plan btree_search_cost l r i sch = record {
  blocks_accessed = (do
    a ← l.blocks_accessed
    m ← l.records
    b ← index_blocks btree_search_cost i
    n ← index_join_records l i
    ok ((a + m * b + n) % size_mod));
  records = index_join_records l i;
  distinct_values =
      λ f. l.schema >>= λ s. if has_field s f then l.distinct_values f else r.distinct_values f;
  schema = pointee sch;
}

unfoldable pub make_index_join_plan : (ℤ → ℤ → Result ℕ) → Plan → Plan → IndexInfo → Result Plan
unfolding index_join_plan add_both
make_index_join_plan btree_search_cost l r i =
    add_both l r >>= λ sch. ok (index_join_plan btree_search_cost l r i sch)
