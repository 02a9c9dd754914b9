-- ===== src/Index/Contract.antt =====
-- Indexes, src/libs/dbcore/index/i_index.h, and what the scans through an index rely on.
use myc_db.Prelude.{◌≡◌, Bool, true, false, List, [], ◌∷◌, Option, none, some, ok, Op, Text}
use myc_db.Query.Constant.{Constant}
use myc_db.Record.Schema.{RecordId}
use myc_db.Scan.{UpdateScan}
use myc_db.Scan.Contract.{Row}

-- `i_index`.
pub record Index (S : Type 0) : Type 0 where
  pub before_first : Constant → Op S (Unit {0})
  pub next : Op S Bool
  pub get_data_rid : Op S RecordId
  pub insert : Constant → RecordId → Op S (Unit {0})
  pub delete_record : Constant → RecordId → Op S (Unit {0})
  pub close : Op S (Unit {0})

-- The index has the identifiers `rids key` for each of the keys it can be asked for: `IsStanding s c rs` says that it stands on `c`, or
-- before the next one, and that `rs` are still to come.
-- After `next` has said that there are no more, the index can be asked for a key again.
pub record Answers {S : Type 0} (x : Index S) (IsKey : Constant → Type 0)
    (rids : Constant → List RecordId) : Type 1 where
  pub IsUsable : S → Type 0
  pub IsStanding : S → Option RecordId → List RecordId → Type 0
  pub usable : (s : S) (c : Option RecordId) (rs : List RecordId) → IsStanding s c rs → IsUsable s
  pub start :
      (s : S) (key : Constant)
      → IsKey key
      → IsUsable s
      → ((x.before_first key s).0 ≡ ok tt) × IsStanding (x.before_first key s).1 none (rids key)
  pub stop :
      (s : S) (c : Option RecordId)
      → IsStanding s c []
      → ((x.next s).0 ≡ ok false) × IsUsable (x.next s).1
  pub step :
      (s : S) (c : Option RecordId) (r : RecordId) (rs : List RecordId)
      → IsStanding s c (r ∷ rs)
      → ((x.next s).0 ≡ ok true) × IsStanding (x.next s).1 (some r) rs
  pub rid :
      (s : S) (r : RecordId) (rs : List RecordId)
      → IsStanding s (some r) rs
      → ((x.get_data_rid s).0 ≡ ok r) × IsStanding (x.get_data_rid s).1 (some r) rs

-- The table has the row `row r` at each identifier to which the scan is moved.
pub record Holds {T : Type 0} (u : UpdateScan T) (fields : Text → Bool) (row : RecordId → Row)
    : Type 1 where
  pub IsOpen : T → Type 0
  pub IsAt : T → RecordId → Type 0
  pub open_at : (t : T) (r : RecordId) → IsAt t r → IsOpen t
  pub move :
      (t : T) (r : RecordId)
      → IsOpen t
      → ((u.move_to_rid r t).0 ≡ ok tt) × IsAt (u.move_to_rid r t).1 r
  pub value : (t : T) (r : RecordId) (f : Text) → IsAt t r → u.scan.get_val f t ≡ row r f
  pub names : (t : T) (f : Text) → IsOpen t → u.scan.has_field f t ≡ ok (fields f)
