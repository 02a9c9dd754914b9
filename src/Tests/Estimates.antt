-- ===== src/Tests/Estimates.antt =====
-- Estimates of a table of 100 rows, of selections from it, and of an index.
use myc_db.Prelude.{
  ◌<◌, ◌^◌, ◌/◌, ◌≡◌, refl, ◌≤◌, ◌⊎◌, [], ◌∷◌, arith, pos, ok, err, ◌>>=◌, same_text, undefined,
  text,
}
use myc_db.Metadata.StatInfo.{
  StatInfo, IndexInfo, hash_index, index_schema, index_blocks, index_records,
}
use myc_db.Query.Constant.{int}
use myc_db.Query.Expression.{of_constant, of_field}
use myc_db.Query.Predicate.{Predicate, reduction}
use myc_db.Query.Plan.{Plan, table_plan, select_plan, make_product_plan}
use myc_db.Query.Plan.Bounds.{
  a_constant, a_field, product, table_plan-Estimates, select_plan-records,
}
use myc_db.Record.Schema.{
  empty_schema, add_int_field, add_str_field, field_length, field_at, varchar,
}

abbrev hundred_rows : StatInfo
hundred_rows = record { num_blocks = pos 10; num_recs = pos 100 }

abbrev rows_plan : Plan
unfolding table_plan
rows_plan =
    table_plan hundred_rows (record { schema = empty_schema; offsets = []; slot_size = pos 8 })

abbrev a_is_five : Predicate
a_is_five = record {
  terms = record { lhs = of_field (text "a"); rhs = of_constant (int (pos 5)) } ∷ [];
}

select_plan-records_example :
    ((product (λ f. 34) a_is_five.terms < 2 ^ 31)
      × ((select_plan rows_plan a_is_five).records ≡ ok (100 / product (λ f. 34) a_is_five.terms))
      × (100 / product (λ f. 34) a_is_five.terms ≤ 100))
    ⊎ ((2 ^ 31 ≤ product (λ f. 34) a_is_five.terms)
        × ((select_plan rows_plan a_is_five).records ≡ err undefined))
unfolding table_plan
select_plan-records_example =
    select_plan-records rows_plan a_is_five 100 (λ f. 34) refl
      (table_plan-Estimates hundred_rows
        (record { schema = empty_schema; offsets = []; slot_size = pos 8 }) 100 refl (omega arith))
      ((a_field (text "a") refl, a_constant (int (pos 5)) refl), tt)

-- 34 values of each field, so 2 of the rows.
select_rows : (select_plan rows_plan a_is_five).records ≡ ok 2
unfolding table_plan select_plan reduction
select_rows = refl

product_of_rows : make_product_plan rows_plan rows_plan ≡ err undefined
unfolding table_plan make_product_plan
product_of_rows = refl

abbrev rows_index : IndexInfo
rows_index = record {
  fldname = text "a";
  block_size = pos 80;
  slot_size = pos 8;
  stats = hundred_rows;
  idx_type = hash_index;
}

rows_index-blocks : index_blocks (λ a b. err undefined) rows_index ≡ ok 1
unfolding index_blocks
rows_index-blocks = refl

rows_index-records : index_records rows_index ≡ ok 2
unfolding index_records
rows_index-records = refl

-- The key of an index on a field of type `int` is a text of no characters.
index_schema_int :
    (index_schema (add_int_field empty_schema (text "a")) (text "a") >>= λ sch.
    field_at sch (text "dataval"))
    ≡ ok (record { type = varchar; length = pos 0 })
unfolding index_schema add_int_field add_str_field field_length field_at same_text
index_schema_int = refl
