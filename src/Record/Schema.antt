-- ===== src/Record/Schema.antt =====
-- A schema: the fields in the order they were added, and a map from names to types and lengths:
-- src/libs/dbcore/record/schema.h, and src/libs/dbcore/record/record_id.h.
use myc_db.Prelude.{
  ◌≡◌, refl, Bool, true, false, ◌&&◌, List, [], ◌∷◌, ◌++◌, Option, none, some, arith, if◌then◌else◌,
  ℤ, pos, negsuc, ◌==ℤ◌, out_of_range, Result, ok, err, ◌>>=◌, Text, same_text, same_text→eq,
  same_text_refl, Bool-cases, inl, inr,
}

pub data SqlType : Type 0 where
  integer varchar : SqlType

pub record FieldInfo : Type 0 where
  pub type : SqlType
  pub length : ℤ

-- The map holds one entry for each name: `m_info[fldname] = …` replaces the one before.
pub record Schema : Type 0 where
  pub fields : List Text
  pub info : List (Text × FieldInfo)

abbrev pub empty_schema : Schema
empty_schema = record { fields = []; info = [] }

unfoldable pub find_info : List (Text × FieldInfo) → Text → Option FieldInfo
find_info [] name = none
find_info ((n, i) ∷ l) name = if same_text n name then some i else find_info l name

unfoldable pub put_info : List (Text × FieldInfo) → Text → FieldInfo → List (Text × FieldInfo)
put_info [] name i = (name, i) ∷ []
put_info ((n, j) ∷ l) name i = if same_text n name then (n, i) ∷ l else (n, j) ∷ put_info l name i

unfoldable pub add_field : Schema → Text → SqlType → ℤ → Schema
unfolding put_info
add_field s fldname type length = record {
  fields = s.fields ++ fldname ∷ [];
  info = put_info s.info fldname (record { type = type; length = length });
}

unfoldable pub add_int_field : Schema → Text → Schema
unfolding add_field
add_int_field s fldname = add_field s fldname integer (pos 0)

unfoldable pub add_str_field : Schema → Text → ℤ → Schema
unfolding add_field
add_str_field s fldname length = add_field s fldname varchar length

unfoldable pub has_field : Schema → Text → Bool
unfolding find_info
has_field s fldname = elim (find_info s.info fldname) [ none ↦ false | some i ↦ true ]

-- `m_info.at(fldname)`.
unfoldable pub field_at : Schema → Text → Result FieldInfo
unfolding find_info
field_at s fldname = elim (find_info s.info fldname) [ none ↦ err out_of_range | some i ↦ ok i ]

unfoldable pub field_type : Schema → Text → Result SqlType
unfolding field_at
field_type s fldname = do i ← field_at s fldname; ok i.type

unfoldable pub field_length : Schema → Text → Result ℤ
unfolding field_at
field_length s fldname = do i ← field_at s fldname; ok i.length

-- `add` of a field of another schema.
unfoldable pub add_from : Schema → Text → Schema → Result Schema
unfolding field_type field_length add_field
add_from s fldname sch = do
  type ← field_type sch fldname
  length ← field_length sch fldname
  ok (add_field s fldname type length)

unfoldable pub add_fields : List Text → Schema → Schema → Result Schema
unfolding add_from
add_fields [] s sch = ok s
add_fields (f ∷ fs) s sch = do t ← add_from s f sch; add_fields fs t sch

unfoldable pub add_all : Schema → Schema → Result Schema
unfolding add_fields
add_all s sch = add_fields sch.fields s sch

-- The copy constructor, and the assignment to another schema, which clears it first.
unfoldable pub copy_schema : Schema → Result Schema
unfolding add_all
copy_schema other = add_all empty_schema other

pub record RecordId : Type 0 where
  pub blk_num : ℤ
  pub slot : ℤ

abbrev pub default_rid : RecordId
default_rid = record { blk_num = negsuc 0; slot = negsuc 0 }

unfoldable pub same_rid : RecordId → RecordId → Bool
same_rid a b = a.blk_num ==ℤ b.blk_num && a.slot ==ℤ b.slot

find_info-put_info :
    (l : List (Text × FieldInfo)) (a b : Text) (i : FieldInfo)
    → find_info (put_info l a i) b ≡ (if same_text a b then some i else find_info l b)
unfolding find_info put_info
find_info-put_info [] a b i = refl
find_info-put_info ((n, j) ∷ l) a b i = elim (Bool-cases (same_text n a)) [
  | inl e ↦ ground (arith, same_text→eq n a e, find_info-put_info l a b i)
  | inr e ↦
      ground
        (arith, same_text→eq n b, same_text→eq a b, same_text_refl n, find_info-put_info l a b i)
]

-- A field that was added is found with its type and length, and every other field as before.
pub field_at-add_field :
    (s : Schema) (a b : Text) (type : SqlType) (length : ℤ)
    → field_at (add_field s a type length) b
      ≡ (if same_text a b then ok (record { type = type; length = length }) else field_at s b)
unfolding field_at add_field
field_at-add_field s a b type length =
    ground (arith, find_info-put_info s.info a b (record { type = type; length = length }))
