-- ===== src/Tests/Sorting.antt =====
-- A sort scan of two runs.
use myc_db.Prelude.{◌≡◌, refl, false, List, [], ◌∷◌, pos, Text, text, ok, same_text}
use myc_db.Scan.Contract.{Row}
use myc_db.Scan.Passes.{Passes}
use myc_db.Materialize.SortScan.{compare}
use myc_db.Tests.Scans.{row_of}

abbrev by_a : List Text
by_a = text "a" ∷ []

abbrev other_rows : List Row
other_rows = row_of (pos 4) ∷ row_of (pos 3) ∷ []

-- The comparison tells equal rows from others, not the lower from the higher.
compare_lower : compare by_a (row_of (pos 3)) (row_of (pos 4)) ≡ ok false
unfolding compare same_text
compare_lower = refl

compare_higher : compare by_a (row_of (pos 4)) (row_of (pos 3)) ≡ ok false
unfolding compare same_text
compare_higher = refl
