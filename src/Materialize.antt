-- ===== src/Materialize.antt =====
-- Sorting and grouping: src/libs/dbcore/materialize. Of it, the aggregation functions.
pub mod Aggregate
pub mod Extremes
pub mod GroupBy
pub mod SortScan
pub mod MergeJoin
