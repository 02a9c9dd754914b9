-- ===== src/Scan.antt =====
-- Scans over rows, src/libs/dbcore/scan: the two interfaces i_scan.h and i_update_scan.h as records of
-- methods over the state of the scan. A method that only reads leaves the state as it is.
use myc_db.Prelude.{Bool, ℤ, Result, Op, Text}
use myc_db.Query.Constant.{Constant}
use myc_db.Record.Schema.{RecordId}
pub mod Contract
pub mod Passes
pub mod Select
pub mod Project
pub mod Product

-- `i_scan`.
pub record Scan (S : Type 0) : Type 0 where
  pub before_first : Op S (Unit {0})
  pub next : Op S Bool
  pub get_int : Text → S → Result ℤ
  pub get_str : Text → S → Result Text
  pub get_val : Text → S → Result Constant
  pub has_field : Text → S → Result Bool
  pub close : Op S (Unit {0})

-- `i_update_scan`.
pub record UpdateScan (S : Type 0) : Type 0 where
  pub scan : Scan S
  pub set_val : Text → Constant → Op S (Unit {0})
  pub set_int : Text → ℤ → Op S (Unit {0})
  pub set_str : Text → Text → Op S (Unit {0})
  pub insert : Op S (Unit {0})
  pub delete_record : Op S (Unit {0})
  pub get_rid : S → Result RecordId
  pub move_to_rid : RecordId → Op S (Unit {0})
