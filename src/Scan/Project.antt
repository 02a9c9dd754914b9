-- ===== src/Scan/Project.antt =====
-- Some of the fields of a row: src/libs/dbcore/scan/project_scan.h.
use myc_db.Prelude.{
  Bool, true, false, ◌||◌, List, [], ◌∷◌, if◌then◌else◌, runtime, Result, ok, err, Text, same_text,
}
use myc_db.Scan.{Scan}
pub mod Rows

-- `std::find(…) != end`.
unfoldable pub is_listed : List Text → Text → Bool
is_listed [] f = false
is_listed (g ∷ l) f = same_text g f || is_listed l f

-- A getter of the scan below, for a field of the list.
abbrev pub guarded_get : {A S : Type 0} → List Text → (Text → S → Result A) → Text → S → Result A
guarded_get l get f s = if is_listed l f then get f s else err runtime

unfoldable pub project_scan : {S : Type 0} → Scan S → List Text → Scan S
unfolding is_listed
project_scan sc l = record sc {
  get_int = guarded_get l sc.get_int;
  get_str = guarded_get l sc.get_str;
  get_val = guarded_get l sc.get_val;
  has_field = λ f s. ok (is_listed l f);
}
