-- ===== src/Tests/Lookups.antt =====
-- An index over a table of two rows.
use myc_db.Prelude.{
  ◌≡◌, refl, ap, Bool, true, false, List, [], ◌∷◌, Option, none, some, if◌then◌else◌, ℤ, pos,
  Result, ok, err, undefined, runtime, return, throw, text, same_text, Text,
}
use myc_db.Query.Constant.{Constant, int, same_constant}
use myc_db.Record.Schema.{RecordId}
use myc_db.Scan.{UpdateScan}
use myc_db.Scan.Contract.{Row}
use myc_db.Scan.Passes.{Passes}
use myc_db.Index.Contract.{Index, Answers, Holds}

-- An index with the identifiers of a key in a list.
abbrev IdCursor : Type 0
IdCursor = Option RecordId × List RecordId

abbrev rid_of : ℤ → RecordId
rid_of n = record { blk_num = pos 0; slot = n }

abbrev rids : Constant → List RecordId
rids key =
    if same_constant key (int (pos 4))
    then rid_of (pos 1) ∷ rid_of (pos 3) ∷ []
    else rid_of (pos 2) ∷ []

abbrev move_on : List RecordId → Result Bool × IdCursor
move_on [] = (ok false, (none, []))
move_on (r ∷ rs) = (ok true, (some r, rs))

abbrev read_rid : Option RecordId → Result RecordId
read_rid none = err undefined
read_rid (some r) = ok r

abbrev list_index : Index IdCursor
list_index = record {
  before_first = λ key s. (ok tt, (none, rids key));
  next = λ s. move_on s.1;
  get_data_rid = λ s. (read_rid s.0, s);
  insert = λ key rid. throw runtime;
  delete_record = λ key rid. throw runtime;
  close = return tt;
}

abbrev AnyKey : Constant → Type 0
AnyKey key = Unit {0}

list_index-Answers : Answers list_index AnyKey rids
list_index-Answers = record {
  IsUsable = λ s. Unit {0};
  IsStanding = λ s c rs. s ≡ (c, rs);
  usable = λ s c rs h. tt;
  start = λ s key k h. (refl, refl);
  stop = λ s c h. rw h (refl, tt);
  step = λ s c r rs h. rw h (refl, refl);
  rid = λ s r rs h. rw h (refl, refl);
}

-- A table with a field `b` that holds the slot.
abbrev has_b : Text → Bool
has_b f = same_text f (text "b")

abbrev row_at : RecordId → Row
row_at r f = if same_text f (text "b") then ok (int r.slot) else err runtime

abbrev id_table : UpdateScan RecordId
id_table = record {
  scan = record {
    before_first = return tt;
    next = return false;
    get_int = λ f t. err runtime;
    get_str = λ f t. err runtime;
    get_val = λ f t. row_at t f;
    has_field = λ f t. ok (has_b f);
    close = return tt;
  };
  set_val = λ f v. throw runtime;
  set_int = λ f v. throw runtime;
  set_str = λ f v. throw runtime;
  insert = throw runtime;
  delete_record = throw runtime;
  get_rid = λ t. ok t;
  move_to_rid = λ r t. (ok tt, r);
}

id_table-Holds : Holds id_table has_b row_at
id_table-Holds = record {
  IsOpen = λ t. Unit {0};
  IsAt = λ t r. t ≡ r;
  open_at = λ t r h. tt;
  move = λ t r h. (refl, refl);
  value = λ t r f h. ap (λ x. row_at x f) h;
  names = λ t f h. refl;
}

abbrev key_of : Result Constant → Constant
key_of (ok v) = v
key_of (err e) = int (pos 0)

abbrev row_key : Row → Constant
row_key r = key_of (r (text "a"))
