-- ===== src/Tests/Pages.antt =====
-- Concrete pages of 16 bytes.
use myc_db.Prelude.{◌≡◌, refl, [], ◌∷◌, arith, replicate, pos, negsuc, ok, err, undefined, InInt}
use myc_db.File.Page.{Page, encode_int, get_int, set_int, get_bytes, set_bytes}
use myc_db.File.Page.Access.{get_int-access}
use myc_db.File.Page.RoundTrip.{get_int-set_int, get_bytes-set_bytes}

abbrev zeros : Page
zeros = record { buffer = replicate 16 0 }

abbrev seven_at_4 : Page
seven_at_4 = record { buffer = 0 ∷ 0 ∷ 0 ∷ 0 ∷ 7 ∷ 0 ∷ 0 ∷ 0 ∷ 0 ∷ 0 ∷ 0 ∷ 0 ∷ 0 ∷ 0 ∷ 0 ∷ 0 ∷ [] }

abbrev bytes_at_4 : Page
bytes_at_4 = record { buffer = 0 ∷ 0 ∷ 0 ∷ 0 ∷ 3 ∷ 0 ∷ 0 ∷ 0 ∷ 9 ∷ 8 ∷ 7 ∷ 0 ∷ 0 ∷ 0 ∷ 0 ∷ 0 ∷ [] }

InInt-4 : InInt (pos 4)
InInt-4 = (omega arith, omega arith)

set_7 : set_int zeros (pos 4) (pos 7) ≡ ok seven_at_4
unfolding set_int encode_int
set_7 = refl

set_987 : set_bytes zeros (pos 4) (9 ∷ 8 ∷ 7 ∷ []) ≡ ok bytes_at_4
unfolding set_bytes
set_987 = refl

get_int-set_int_example : get_int seven_at_4 (pos 4) ≡ ok (pos 7)
get_int-set_int_example =
    get_int-set_int zeros seven_at_4 (pos 4) (pos 7) InInt-4 (omega arith, omega arith) set_7

get_bytes-set_bytes_example : get_bytes bytes_at_4 (pos 4) ≡ ok (9 ∷ 8 ∷ 7 ∷ [])
get_bytes-set_bytes_example =
    get_bytes-set_bytes zeros bytes_at_4 (pos 4) (9 ∷ 8 ∷ 7 ∷ []) InInt-4 (omega arith)
      (omega arith) set_987

-- The offset -4 is past both checks.
get_int-access_example : get_int zeros (negsuc 3) ≡ err undefined
get_int-access_example = get_int-access zeros (negsuc 3) (omega arith, omega arith) (omega arith)
