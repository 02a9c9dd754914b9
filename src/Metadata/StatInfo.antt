-- ===== src/Metadata/StatInfo.antt =====
-- Estimates of the size of a table and of an index: src/libs/dbcore/metadata/stat_info.h and
-- index_info.h, and src/libs/dbcore/index/index_type.h.
use myc_db.Prelude.{
  ℕ, zero, suc, ◌-◌, ◌/◌, ℤ, pos, negsuc, ◌+ℤ◌, ◌==ℤ◌, size_of, size_mod, if◌then◌else◌, undefined,
  Result, ok, err, ◌>>=◌, Text, text, same_text,
}
use myc_db.Query.Constant.{checked}
use myc_db.Query.Term.{to_int}
use myc_db.Record.Layout.{Layout, make_layout}
use myc_db.Record.Schema.{Schema, empty_schema, field_length, add_int_field, add_str_field}

pub record StatInfo : Type 0 where
  pub num_blocks : ℤ
  pub num_recs : ℤ

abbrev pub default_stat : StatInfo
default_stat = record { num_blocks = pos 0; num_recs = pos 0 }

unfoldable pub stat_blocks : StatInfo → ℕ
stat_blocks s = size_of s.num_blocks

unfoldable pub stat_records : StatInfo → ℕ
stat_records s = size_of s.num_recs

-- The quotient of two integers, towards 0, where the divisor is not 0.
abbrev pub negative : ℕ → ℤ
negative zero = pos 0
negative (suc n) = negsuc n

unfoldable pub quotient : ℤ → ℤ → ℤ
quotient (pos a) (pos b) = pos (a / b)
quotient (pos a) (negsuc b) = negative (a / suc b)
quotient (negsuc a) (pos b) = negative (suc a / b)
quotient (negsuc a) (negsuc b) = pos (suc a / suc b)

unfoldable pub stat_distinct : StatInfo → Text → ℕ
unfolding quotient
stat_distinct s fldname = size_of (pos 1 +ℤ quotient s.num_recs (pos 3))

-- Division by 0, and a quotient that is no `int`, are undefined.
unfoldable pub divide_int : ℤ → ℤ → Result ℤ
unfolding quotient checked
divide_int a b = if b ==ℤ pos 0 then err undefined else checked (quotient a b)

unfoldable pub divide_size : ℕ → ℕ → Result ℕ
divide_size a zero = err undefined
divide_size a (suc b) = ok (a / suc b)

pub data IndexType : Type 0 where
  hash_index bitmap_index binarytree_index : IndexType

-- What the estimates of `index_info` use of it: of the transaction the size of a block, of the layout
-- the size of a slot.
pub record IndexInfo : Type 0 where
  pub fldname : Text
  pub block_size : ℤ
  pub slot_size : ℤ
  pub stats : StatInfo
  pub idx_type : IndexType

unfoldable pub hash_search_cost : ℤ → ℤ → Result ℕ
unfolding divide_int
hash_search_cost numblocks rpb = divide_int numblocks rpb >>= λ n. ok (size_of n)

-- `btree_search_cost`, a quotient of logarithms, is an argument.
unfoldable pub index_blocks : (ℤ → ℤ → Result ℕ) → IndexInfo → Result ℕ
unfolding hash_search_cost divide_int divide_size stat_records
index_blocks btree_search_cost i = do
  rpb ← divide_int i.block_size i.slot_size
  n ← divide_size (stat_records i.stats) (size_of rpb)
  elim i.idx_type [
    | hash_index ↦ hash_search_cost (to_int n) rpb
    | binarytree_index ↦ btree_search_cost (to_int n) rpb
    | bitmap_index ↦ ok (size_mod - 1)
  ]

unfoldable pub index_records : IndexInfo → Result ℕ
unfolding stat_records stat_distinct divide_size
index_records i = divide_size (stat_records i.stats) (stat_distinct i.stats i.fldname)

unfoldable pub index_distinct : IndexInfo → Text → ℕ
unfolding stat_distinct
index_distinct i fldname = if same_text fldname i.fldname then 1 else stat_distinct i.stats fldname

-- `sql_types::integer`.
abbrev pub integer_code : ℤ
integer_code = pos 4

-- The schema of the records of an index: the length of the field is compared with the code of a type.
unfoldable pub index_schema : Schema → Text → Result Schema
unfolding field_length add_int_field add_str_field
index_schema tbl_sch fldname =
    let places = add_int_field (add_int_field empty_schema (text "block")) (text "id") in
    field_length tbl_sch fldname >>= λ n. ok (
      if n ==ℤ integer_code
      then add_int_field places (text "dataval")
      else add_str_field places (text "dataval") n)

unfoldable pub create_index_layout : Schema → Text → ℤ → Result Layout
unfolding index_schema make_layout
create_index_layout tbl_sch fldname garbage = do
  sch ← index_schema tbl_sch fldname
  make_layout sch garbage
