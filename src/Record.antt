-- ===== src/Record.antt =====
-- Records, src/libs/dbcore/record: schemas, layouts and record identifiers.
pub mod Schema
pub mod Layout
pub mod Offsets
pub mod RecordPage
pub mod TableScan
