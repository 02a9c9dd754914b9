-- ===== src/Scan/Contract.antt =====
-- What a scan promises: it goes through a list of rows, each once and in order.
use myc_db.Prelude.{◌≡◌, Bool, true, false, List, [], ◌∷◌, Option, none, some, Result, ok, Text}
use myc_db.Query.Constant.{Constant}
use myc_db.Scan.{Scan}

-- The value of each field, or how reading it ends.
abbrev pub Row : Type 0
Row = Text → Result Constant

-- `IsStanding s c rs`: the scan stands on `c`, or before the next row, and `rs` are still to come.
-- After `next` has said that there are no more rows, the scan can be started again.
pub record Represents {S : Type 0} (sc : Scan S) (fields : Text → Bool) (rows : List Row)
    : Type 1 where
  pub IsUsable : S → Type 0
  pub IsStanding : S → Option Row → List Row → Type 0
  pub usable : (s : S) (c : Option Row) (rs : List Row) → IsStanding s c rs → IsUsable s
  pub start :
      (s : S)
      → IsUsable s
      → ((sc.before_first s).0 ≡ ok tt) × IsStanding (sc.before_first s).1 none rows
  pub stop :
      (s : S) (c : Option Row)
      → IsStanding s c []
      → ((sc.next s).0 ≡ ok false) × IsUsable (sc.next s).1
  pub step :
      (s : S) (c : Option Row) (r : Row) (rs : List Row)
      → IsStanding s c (r ∷ rs)
      → ((sc.next s).0 ≡ ok true) × IsStanding (sc.next s).1 (some r) rs
  pub value :
      (s : S) (r : Row) (rs : List Row) (f : Text) → IsStanding s (some r) rs → sc.get_val f s ≡ r f
  pub names : (s : S) (f : Text) → IsUsable s → sc.has_field f s ≡ ok (fields f)

-- The same for a scan that knows its fields only while it stands on a row.
pub record Visits {S : Type 0} (sc : Scan S) (fields : Text → Bool) (rows : List Row) : Type 1 where
  pub IsUsable : S → Type 0
  pub IsStanding : S → Option Row → List Row → Type 0
  pub usable : (s : S) (c : Option Row) (rs : List Row) → IsStanding s c rs → IsUsable s
  pub start :
      (s : S)
      → IsUsable s
      → ((sc.before_first s).0 ≡ ok tt) × IsStanding (sc.before_first s).1 none rows
  pub stop :
      (s : S) (c : Option Row)
      → IsStanding s c []
      → ((sc.next s).0 ≡ ok false) × IsUsable (sc.next s).1
  pub step :
      (s : S) (c : Option Row) (r : Row) (rs : List Row)
      → IsStanding s c (r ∷ rs)
      → ((sc.next s).0 ≡ ok true) × IsStanding (sc.next s).1 (some r) rs
  pub value :
      (s : S) (r : Row) (rs : List Row) (f : Text) → IsStanding s (some r) rs → sc.get_val f s ≡ r f
  pub names :
      (s : S) (r : Row) (rs : List Row) (f : Text)
      → IsStanding s (some r) rs
      → sc.has_field f s ≡ ok (fields f)
