-- ===== src/Record/Layout.antt =====
-- The layout of a record on a page: src/libs/dbcore/record/layout.h. The constructor that computes
-- the offsets leaves `m_slotsize` uninitialised: what the memory held there is an argument.
use myc_db.Prelude.{
  List, [], ◌∷◌, Option, none, some, if◌then◌else◌, ℤ, pos, out_of_range, Result, ok, err, ◌>>=◌,
  Text, same_text,
}
use myc_db.File.Page.{int_size, max_len, add_int}
use myc_db.Record.Schema.{Schema, integer, varchar, field_type, field_length}

pub record Layout : Type 0 where
  pub schema : Schema
  pub offsets : List (Text × ℤ)
  pub slot_size : ℤ

unfoldable pub length_in_bytes : Schema → Text → Result ℤ
unfolding field_type field_length
length_in_bytes s fldname = do
  type ← field_type s fldname
  elim type [
    | integer ↦ ok (pos int_size)
    | varchar ↦ field_length s fldname >>= λ n. ok (max_len n)
  ]

unfoldable pub find_offset : List (Text × ℤ) → Text → Option ℤ
find_offset [] name = none
find_offset ((n, i) ∷ l) name = if same_text n name then some i else find_offset l name

unfoldable pub put_offset : List (Text × ℤ) → Text → ℤ → List (Text × ℤ)
put_offset [] name i = (name, i) ∷ []
put_offset ((n, j) ∷ l) name i =
    if same_text n name then (n, i) ∷ l else (n, j) ∷ put_offset l name i

-- The loop of the constructor.
unfoldable pub place_fields : Schema → List Text → ℤ → List (Text × ℤ) → Result (List (Text × ℤ))
unfolding length_in_bytes put_offset add_int
place_fields s [] at offsets = ok offsets
place_fields s (f ∷ fs) at offsets = do
  n ← length_in_bytes s f
  next ← add_int at n
  place_fields s fs next (put_offset offsets f at)

unfoldable pub make_layout : Schema → ℤ → Result Layout
unfolding place_fields
make_layout schema garbage = do
  offsets ← place_fields schema schema.fields (pos int_size) []
  ok (record { schema = schema; offsets = offsets; slot_size = garbage })

-- `m_offsets.at(fldname)`.
unfoldable pub offset : Layout → Text → Result ℤ
unfolding find_offset
offset l fldname = elim (find_offset l.offsets fldname) [ none ↦ err out_of_range | some i ↦ ok i ]
