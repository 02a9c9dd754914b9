-- ===== src/Parse/Statement.antt =====
-- What the parser returns for a statement: src/libs/dbcore/parse/ops_data. Each record has the fields
-- of the class in the order of its constructor's parameters.
use myc_db.Prelude.{List, [], ◌∷◌, ◌++◌, Result, ok, ◌>>=◌, Text, text}
use myc_db.Query.Constant.{Constant}
use myc_db.Query.Expression.{Expression}
use myc_db.Query.Predicate.{Predicate, show_predicate}
use myc_db.Record.Schema.{Schema}

pub record QueryData : Type 0 where
  pub fields : List Text
  pub tables : List Text
  pub pred : Predicate

pub record InsertData : Type 0 where
  pub tblname : Text
  pub fields : List Text
  pub vals : List Constant

pub record DeleteData : Type 0 where
  pub tblname : Text
  pub pred : Predicate

pub record ModifyData : Type 0 where
  pub tblname : Text
  pub fldname : Text
  pub newval : Expression
  pub pred : Predicate

pub record CreateTableData : Type 0 where
  pub tblname : Text
  pub sch : Schema

pub record CreateViewData : Type 0 where
  pub viewname : Text
  pub qrydata : QueryData

pub record CreateIndexData : Type 0 where
  pub tblname : Text
  pub fldname : Text
  pub idxname : Text

-- `create_index_data(tblname, fldname, idxname)`.
unfoldable pub make_create_index_data : Text → Text → Text → CreateIndexData
make_create_index_data tblname fldname idxname = record {
  tblname = tblname;
  fldname = fldname;
  idxname = idxname;
}

-- `update_cmd_parse_result`.
pub data Command : Type 0 where
  insert_cmd : InsertData → Command
  delete_cmd : DeleteData → Command
  modify_cmd : ModifyData → Command
  create_table_cmd : CreateTableData → Command
  create_view_cmd : CreateViewData → Command
  create_index_cmd : CreateIndexData → Command

-- Names with a comma between them.
unfoldable pub join_names : List Text → Text
join_names [] = []
join_names (n ∷ []) = n
join_names (n ∷ m ∷ l) = n ++ text ", " ++ join_names (m ∷ l)

where_part : Text → Text
where_part [] = []
where_part (c ∷ s) = text " where " ++ c ∷ s

-- `query_data::to_string`.
unfoldable pub show_query : QueryData → Result Text
unfolding join_names where_part show_predicate
show_query q = do
  pred ← show_predicate q.pred
  ok (
      text "select "
      ++ join_names q.fields
      ++ text " from "
      ++ join_names q.tables
      ++ where_part pred)

unfoldable pub view_def : CreateViewData → Result Text
unfolding show_query
view_def v = show_query v.qrydata
