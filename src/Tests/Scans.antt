-- ===== src/Tests/Scans.antt =====
-- A scan over a list of rows, and selections, projections and products of it.
use myc_db.Prelude.{
  ◌≡◌, refl, Bool, true, false, List, [], ◌∷◌, Option, none, some, if◌then◌else◌, ℤ, pos, ◌==ℤ◌,
  Result, ok, err, undefined, runtime, throw, text, Text, same_text,
}
use myc_db.Query.Constant.{Constant, int, str}
use myc_db.Query.Expression.{of_constant, of_field}
use myc_db.Query.Predicate.{Predicate}
use myc_db.Scan.{Scan, UpdateScan}
use myc_db.Scan.Contract.{Row, Represents}
use myc_db.Scan.Passes.{Passes}
use myc_db.Scan.Product.{product_scan}

-- The rows to come, and the row it stands on.
abbrev pub Cursor : Type 0
Cursor = List Row × Option Row

abbrev pub read_row : Option Row → Text → Result Constant
read_row none f = err undefined
read_row (some r) f = r f

abbrev pub move_on : List Row → Result Bool × Cursor
move_on [] = (ok false, ([], none))
move_on (r ∷ rs) = (ok true, (rs, some r))

abbrev pub list_scan : (Text → Bool) → List Row → Scan Cursor
list_scan fields rows = record {
  before_first = λ s. (ok tt, (rows, none));
  next = λ s. move_on s.0;
  get_int = λ f s. err undefined;
  get_str = λ f s. err undefined;
  get_val = λ f s. read_row s.1 f;
  has_field = λ f s. ok (fields f);
  close = λ s. (ok tt, s);
}

abbrev pub fixed_rows : Scan Cursor → UpdateScan Cursor
fixed_rows sc = record {
  scan = sc;
  set_val = λ f v. throw runtime;
  set_int = λ f v. throw runtime;
  set_str = λ f v. throw runtime;
  insert = throw runtime;
  delete_record = throw runtime;
  get_rid = λ s. err runtime;
  move_to_rid = λ rid. throw runtime;
}

unfoldable pub list_scan-Represents :
    (fields : Text → Bool) (rows : List Row) → Represents (list_scan fields rows) fields rows
list_scan-Represents fields rows = record {
  IsUsable = λ s. Unit {0};
  IsStanding = λ s c rs. s ≡ (rs, c);
  usable = λ s c rs h. tt;
  start = λ s h. (refl, refl);
  stop = λ s c h. rw h (refl, tt);
  step = λ s c r rs h. rw h (refl, refl);
  value = λ s r rs f h. rw h;
  names = λ s f h. refl;
}

-- Two rows with a field `a`, and the predicate `a = 5`.
abbrev pub has_a : Text → Bool
has_a f = same_text f (text "a")

abbrev pub row_of : ℤ → Row
row_of n f = if same_text f (text "a") then ok (int n) else err runtime

abbrev pub two_rows : List Row
two_rows = row_of (pos 4) ∷ row_of (pos 5) ∷ []

abbrev a_is_5 : Predicate
a_is_5 = record {
  terms = record { lhs = of_field (text "a"); rhs = of_constant (int (pos 5)) } ∷ [];
}

abbrev b_rows : List Row
b_rows = (λ f. ok (str (text "x"))) ∷ []

abbrev is_5 : Constant → Bool
is_5 (int z) = z ==ℤ pos 5
is_5 (str t) = false

abbrev has_5 : Row → Bool
has_5 r = elim (r (text "a")) [ ok v ↦ is_5 v | err e ↦ false ]

abbrev over_nothing : Scan (Cursor × Cursor)
over_nothing = product_scan (list_scan has_a []) (list_scan has_a b_rows)
