-- ===== src/Index/HashIndex/Buckets.antt =====
-- The entries of a hash index and the buckets they stand in: src/libs/dbcore/index/hash/hash_index.cpp.
use myc_db.Prelude.{
  ℕ, ◌≤◌, ◌≡◌, refl, ap, ◌∙◌, Bool, true, false, List, [], ◌∷◌, Option, none, some, length, arith,
  Bool-cases, inl, inr, if◌then◌else◌, Result, ok, err, Text, text, same_text, same_text→eq,
  same_text_refl,
}
use myc_db.Query.Constant.{Constant, int, str, same_constant}
use myc_db.Record.Schema.{RecordId}
use myc_db.Index.HashIndex.{Tables, bucket_name}

-- A record of the index: a key, and where a row with that key stands in the table.
pub record Entry : Type 0 where
  pub key : Constant
  pub rid : RecordId

abbrev pub keep_entries : (Entry → Bool) → List Entry → List Entry
keep_entries test [] = []
keep_entries test (e ∷ es) = let rest = keep_entries test es in if test e then e ∷ rest else rest

abbrev pub has_key : Constant → Entry → Bool
has_key key e = same_constant e.key key

abbrev pub is_name : Text → Result Text → Bool
is_name name (ok n) = same_text n name
is_name name (err e) = false

-- The entries that belong into a bucket.
abbrev pub entries_of : ℕ → Text → List Entry → Text → List Entry
entries_of buckets_num idx_name entries name =
    keep_entries (λ e. is_name name (bucket_name buckets_num idx_name e.key)) entries

-- The tables have the entries `entries name` under a name: `IsStanding t c es` says that the scan
-- stands on `c`, or before the next entry, and that `es` are still to come.
pub record Keeps {B T : Type 0} (tables : Tables B T) (entries : Text → List Entry) : Type 1 where
  pub IsBase : B → Type 0
  pub IsOpen : T → Type 0
  pub IsStanding : T → Option Entry → List Entry → Type 0
  pub open_at : (t : T) (c : Option Entry) (es : List Entry) → IsStanding t c es → IsOpen t
  pub opens :
      (name : Text) (b : B)
      → IsBase b
      → ((tables.open_table name b).0 ≡ ok tt)
        × IsStanding (tables.open_table name b).1 none (entries name)
  pub stop :
      (t : T) (c : Option Entry)
      → IsStanding t c []
      → ((tables.table.scan.next t).0 ≡ ok false) × IsOpen (tables.table.scan.next t).1
  pub step :
      (t : T) (c : Option Entry) (e : Entry) (es : List Entry)
      → IsStanding t c (e ∷ es)
      → ((tables.table.scan.next t).0 ≡ ok true)
        × IsStanding (tables.table.scan.next t).1 (some e) es
  pub value :
      (t : T) (e : Entry) (es : List Entry)
      → IsStanding t (some e) es
      → (tables.table.scan.get_val (text "dataval") t ≡ ok e.key)
        × (tables.table.scan.get_int (text "block") t ≡ ok e.rid.blk_num)
        × (tables.table.scan.get_int (text "id") t ≡ ok e.rid.slot)
  pub closes :
      (t : T)
      → IsOpen t
      → ((tables.table.scan.close t).0 ≡ ok tt)
        × IsBase (tables.leave (tables.table.scan.close t).1)

-- The hash of the key is defined.
abbrev pub HasBucket : ℕ → Text → Constant → Type 0
HasBucket buckets_num idx_name key = (n : Text) × (bucket_name buckets_num idx_name key ≡ ok n)

pub same_constant→eq : (a b : Constant) → same_constant a b ≡ true → a ≡ b
unfolding same_constant
same_constant→eq (int a) (int b) h = ground arith
same_constant→eq (str a) (str b) h = ap str (same_text→eq a b h)
same_constant→eq (int a) (str b) h = cc
same_constant→eq (str a) (int b) h = cc

-- The entries with a key are all in the bucket of that key.
pub keep-entries_of :
    (buckets_num : ℕ) (idx_name : Text) (key : Constant) (n : Text) (es : List Entry)
    → bucket_name buckets_num idx_name key ≡ ok n
    → keep_entries (has_key key) (entries_of buckets_num idx_name es n)
      ≡ keep_entries (has_key key) es
keep-entries_of buckets_num idx_name key n [] h = refl
keep-entries_of buckets_num idx_name key n (e ∷ es) h =
    let rest = keep-entries_of buckets_num idx_name key n es h in
    elim (Bool-cases (same_constant e.key key)) [
      | inl k ↦
          let here =
            ap (λ c. is_name n (bucket_name buckets_num idx_name c)) (same_constant→eq e.key key k)
            ∙ ap (is_name n) h
            ∙ same_text_refl n in
          rw (here, k, rest) refl
      | inr k ↦ elim (Bool-cases (is_name n (bucket_name buckets_num idx_name e.key))) [
        | inl b ↦ rw (b, k, rest) refl
        | inr b ↦ rw (b, k, rest) refl
      ]
    ]

pub length-keep_entries :
    (test : Entry → Bool) (es : List Entry) → length (keep_entries test es) ≤ length es
length-keep_entries test [] = omega arith
length-keep_entries test (e ∷ es) = ground (arith, length-keep_entries test es)
