-- ===== src/Tests/Hashes.antt =====
-- A hash index with two entries of one key and one of another.
use myc_db.Prelude.{
  ◌≡◌, refl, List, [], ◌∷◌, Option, none, some, pos, negsuc, Result, ok, err, ◌>>=◌, undefined,
  runtime, bad_variant, return, if◌then◌else◌, same_text, ℤ, throw, Bool, true, false, text, Text,
}
use myc_db.Query.Constant.{int, str, as_int, same_constant}
use myc_db.Index.Finds.{Finds}
use myc_db.Index.HashIndex.{Tables, bucket_name}
use myc_db.Index.HashIndex.Buckets.{Entry, entries_of, Keeps}
use myc_db.Index.HashIndex.Answers.{rids_of}

-- A negative hash is converted to 64 bits without a sign.
bucket_of_minus_one : bucket_name 100 (text "idx") (int (negsuc 0)) ≡ ok (text "idx15")
unfolding bucket_name
bucket_of_minus_one = refl

bucket_of_text : bucket_name 100 (text "idx") (str (text "ab")) ≡ ok (text "idx5")
unfolding bucket_name
bucket_of_text = refl

abbrev three_entries : List Entry
three_entries =
    record { key = int (pos 7); rid = record { blk_num = pos 0; slot = pos 1 } }
    ∷ record { key = int (pos 107); rid = record { blk_num = pos 0; slot = pos 2 } }
    ∷ record { key = int (pos 7); rid = record { blk_num = pos 3; slot = pos 0 } }
    ∷ []

abbrev Reader : Type 0
Reader = List Entry × Option Entry

abbrev read_on : List Entry → Result Bool × Reader
read_on [] = (ok false, ([], none))
read_on (e ∷ es) = (ok true, (es, some e))

abbrev at_entry : Option Entry → Result Entry
at_entry none = err undefined
at_entry (some e) = ok e

abbrev get_number : Text → Entry → Result ℤ
get_number f e =
    if same_text f (text "block")
    then ok e.rid.blk_num
    else if same_text f (text "id")
    then ok e.rid.slot
    else as_int e.key

-- Each bucket is read from the list of its entries.
abbrev list_tables : Tables (Unit {0}) Reader
list_tables = record {
  open_table = λ name b. (ok tt, (entries_of 100 (text "idx") three_entries name, none));
  table = record {
    scan = record {
      before_first = throw runtime;
      next = λ t. read_on t.0;
      get_int = λ f t. at_entry t.1 >>= get_number f;
      get_str = λ f t. err bad_variant;
      get_val = λ f t. at_entry t.1 >>= λ e. ok e.key;
      has_field = λ f t. ok true;
      close = return tt;
    };
    set_val = λ f v. throw runtime;
    set_int = λ f v. throw runtime;
    set_str = λ f v. throw runtime;
    insert = throw runtime;
    delete_record = throw runtime;
    get_rid = λ t. err runtime;
    move_to_rid = λ r. throw runtime;
  };
  leave = λ t. tt;
}

list_tables-Keeps : Keeps list_tables (entries_of 100 (text "idx") three_entries)
unfolding same_text
list_tables-Keeps = record {
  IsBase = λ b. Unit {0};
  IsOpen = λ t. Unit {0};
  IsStanding = λ t c es. t ≡ (es, c);
  open_at = λ t c es h. tt;
  opens = λ name b h. (refl, refl);
  stop = λ t c h. rw h (refl, tt);
  step = λ t c e es h. rw h (refl, refl);
  value = λ t e es h. rw h (refl, refl, refl);
  closes = λ t h. (refl, tt);
}

-- The keys 7 and 107 share a bucket, and are told apart in it.
rids_of_seven :
    rids_of three_entries (int (pos 7))
    ≡ record { blk_num = pos 0; slot = pos 1 } ∷ record { blk_num = pos 3; slot = pos 0 } ∷ []
unfolding same_constant
rids_of_seven = refl
