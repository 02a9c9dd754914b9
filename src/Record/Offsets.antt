-- ===== src/Record/Offsets.antt =====
-- Where the fields of a layout stand: src/libs/dbcore/record/layout.h.
use myc_db.Prelude.{
  ◌≡◌, refl, sym, ap, subst, ◌∙◌, false, List, [], ◌∷◌, ◌++◌, some, arith, if◌then◌else◌, ℤ, pos,
  ◌+ℤ◌, Bool-cases, inl, inr, Result, ok, ◌>>=◌, >>=-eq-ok, Text, same_text, same_text→eq,
  same_text_refl, InInt, in_int, signed-word_of, ok_inj, err,
}
use myc_db.File.Page.{int_size, max_len, add_int}
use myc_db.Record.Schema.{Schema, SqlType, integer, varchar, field_type, field_length}
use myc_db.Record.Layout.{
  Layout, length_in_bytes, find_offset, put_offset, place_fields, make_layout, offset,
}

-- The bytes of a field: a word for an `int`, a word and the characters for a text.
unfoldable pub field_bytes : Schema → Text → Result ℤ
field_bytes s f = field_type s f >>= λ type. elim type [
  | integer ↦ ok (pos 4)
  | varchar ↦ field_length s f >>= λ n. ok (pos 4 +ℤ n)
]

-- Where the fields end that are laid out from a position on, as a sum without bounds.
pub end_of : Schema → List Text → ℤ → Result ℤ
end_of s [] at = ok at
end_of s (f ∷ fs) at = field_bytes s f >>= λ n. end_of s fs (at +ℤ n)

-- The bytes of each of the fields are an `int`.
abbrev pub AllShort : Schema → List Text → Type 0
AllShort s [] = Unit {0}
AllShort s (f ∷ fs) = ((n : ℤ) → field_bytes s f ≡ ok n → InInt n) × AllShort s fs

max_len_lem : (n : ℤ) → InInt (pos 4 +ℤ n) → max_len n ≡ pos 4 +ℤ n
max_len_lem n h = signed-word_of (pos 4 +ℤ n) h

length_in_bytes-short :
    (s : Schema) (f : Text)
    → ((n : ℤ) → field_bytes s f ≡ ok n → InInt n)
    → length_in_bytes s f ≡ field_bytes s f
unfolding length_in_bytes field_bytes
length_in_bytes-short s f h = go (field_type s f) (field_length s f) h
  where
    go :
        (t : Result SqlType) (l : Result ℤ)
        → ((n : ℤ)
            → (t >>= λ type. elim type as (λ x. Result ℤ) [
              | integer ↦ ok (pos 4)
              | varchar ↦ l >>= λ k. ok (pos 4 +ℤ k)
            ])
              ≡ ok n
            → InInt n)
        → (t >>= λ type. elim type as (λ x. Result ℤ) [
          | integer ↦ ok (pos int_size)
          | varchar ↦ l >>= λ k. ok (max_len k)
        ])
          ≡ (t >>= λ type. elim type as (λ x. Result ℤ) [
            | integer ↦ ok (pos 4)
            | varchar ↦ l >>= λ k. ok (pos 4 +ℤ k)
          ])
    go (err x) l k = refl
    go (ok integer) l k = refl
    go (ok varchar) (err x) k = refl
    go (ok varchar) (ok n) k = ap ok (max_len_lem n (k _ refl))

add_int-eq : (a b c : ℤ) → add_int a b ≡ ok c → a +ℤ b ≡ c
unfolding add_int
add_int-eq a b c e = elim (Bool-cases (in_int (a +ℤ b))) [
  | inl h ↦ ok_inj (rw h at e)
  | inr h ↦ let f = rw h at e in cc
]

-- The field is none of these.
abbrev pub Fresh : Text → List Text → Type 0
Fresh f [] = Unit {0}
Fresh f (g ∷ gs) = (same_text g f ≡ false) × Fresh f gs

find_offset-put_offset :
    (l : List (Text × ℤ)) (a b : Text) (i : ℤ)
    → find_offset (put_offset l a i) b ≡ (if same_text a b then some i else find_offset l b)
unfolding find_offset put_offset
find_offset-put_offset [] a b i = refl
find_offset-put_offset ((n, j) ∷ l) a b i = elim (Bool-cases (same_text n a)) [
  | inl e ↦ ground (arith, same_text→eq n a e, find_offset-put_offset l a b i)
  | inr e ↦
      ground (
        arith,
        same_text→eq n b,
        same_text→eq a b,
        same_text_refl n,
        find_offset-put_offset l a b i,
      )
]

found_at_put :
    (l : List (Text × ℤ)) (f : Text) (at : ℤ) → find_offset (put_offset l f at) f ≡ some at
found_at_put l f at = rw (find_offset-put_offset l f f at, same_text_refl f)

-- Laying out other fields keeps the offset of a field.
place_fields-Fresh :
    (s : Schema) (f : Text) (gs : List Text) (at x : ℤ) (l m : List (Text × ℤ))
    → Fresh f gs
    → find_offset l f ≡ some x
    → place_fields s gs at l ≡ ok m
    → find_offset m f ≡ some x
unfolding place_fields
place_fields-Fresh s f [] at x l m fresh here e = ground (arith, here)
place_fields-Fresh s f (g ∷ gs) at x l m (other, fresh) here e =
    let (n, hn, k') = >>=-eq-ok (length_in_bytes s g) _ e in
    let (next, hx, k) = >>=-eq-ok (add_int at n) _ k' in
    place_fields-Fresh s f gs next x (put_offset l g at) m fresh
      (rw (find_offset-put_offset l g f at, other) here) k

place_fields-offset :
    (s : Schema) (fs gs : List Text) (f : Text) (at : ℤ) (l m : List (Text × ℤ))
    → Fresh f gs
    → AllShort s (fs ++ f ∷ gs)
    → place_fields s (fs ++ f ∷ gs) at l ≡ ok m
    → (x : ℤ) × (end_of s fs at ≡ ok x) × (find_offset m f ≡ some x)
unfolding place_fields end_of
place_fields-offset s [] gs f at l m fresh short e =
    let (n, hn, k') = >>=-eq-ok (length_in_bytes s f) _ e in
    let (next, hx, k) = >>=-eq-ok (add_int at n) _ k' in
    (
      at,
      refl,
      place_fields-Fresh s f gs next at (put_offset l f at) m fresh (found_at_put l f at) k,
    )
place_fields-offset s (g ∷ fs) gs f at l m fresh (short, shorts) e =
    let (n, hn, k') = >>=-eq-ok (length_in_bytes s g) _ e in
    let (next, hs, k) = >>=-eq-ok (add_int at n) _ k' in
    let (x, hx, found) = place_fields-offset s fs gs f next (put_offset l g at) m fresh shorts k in
    let needed : field_bytes s g ≡ ok n = sym (length_in_bytes-short s g short) ∙ hn in
    (
      x,
      ap (λ r. r >>= λ k. end_of s fs (at +ℤ k)) needed
          ∙ ap (end_of s fs) (add_int-eq at n next hs)
          ∙ hx,
      found,
    )

made_offset :
    (m l : Layout) (f : Text) (x : ℤ)
    → ok m ≡ ok l
    → find_offset m.offsets f ≡ some x
    → (offset l f ≡ ok x) × (l.slot_size ≡ m.slot_size)
unfolding offset
made_offset m l f x e found =
    let same : m ≡ l = cc in
    subst (λ k. (offset k f ≡ ok x) × (k.slot_size ≡ m.slot_size)) same
      (rw (found, offset) refl, refl)

-- Of the layout that the constructor makes, where the bytes of each field are an `int`: a field starts
-- where the fields before it end, the first after the `int` of the slot's flag, if no later field has its
-- name; and the size of a slot is whatever the memory held.
pub make_layout-offset :
    (s : Schema) (garbage : ℤ) (l : Layout) (fs gs : List Text) (f : Text)
    → s.fields ≡ fs ++ f ∷ gs
    → Fresh f gs
    → AllShort s s.fields
    → make_layout s garbage ≡ ok l
    → (offset l f ≡ end_of s fs (pos int_size)) × (l.slot_size ≡ garbage)
unfolding make_layout offset
make_layout-offset s garbage l fs gs f split fresh short e =
    let (m, hm, k) = >>=-eq-ok (place_fields s s.fields (pos int_size) []) _ e in
    let (x, hx, found) =
      place_fields-offset s fs gs f (pos int_size) [] m fresh (subst (AllShort s) split short)
        (rw (← split) hm) in
    let (at, size) =
      made_offset (record { schema = s; offsets = m; slot_size = garbage }) l f x k found in
    (at ∙ sym hx, size)
