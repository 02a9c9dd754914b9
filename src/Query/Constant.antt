-- ===== src/Query/Constant.antt =====
-- A constant, an `int` or a string: src/libs/dbcore/query/constant.h.
use myc_db.Prelude.{
  ℕ, zero, suc, ◌+◌, ◌-◌, ◌/◌, ◌%◌, Bool, true, false, [], ◌∷◌, ◌++◌, ltb, ◌==◌, if◌then◌else◌, ℤ,
  pos, negsuc, ◌+ℤ◌, ◌*ℤ◌, ltb_ℤ, ◌==ℤ◌, in_int, bad_variant, undefined, Result, ok, err, ◌>>=◌,
  Text, same_text,
}

-- `std::variant<int, std::string>`.
pub data Constant : Type 0 where
  int : ℤ → Constant
  str : Text → Constant

unfoldable pub as_int : Constant → Result ℤ
as_int (int z) = ok z
as_int (str s) = err bad_variant

unfoldable pub as_str : Constant → Result Text
as_str (int z) = err bad_variant
as_str (str s) = ok s

unfoldable pub same_constant : Constant → Constant → Bool
same_constant (int a) (int b) = a ==ℤ b
same_constant (str a) (str b) = same_text a b
same_constant _ _ = false

-- `<` on strings, byte by byte.
unfoldable pub less_text : Text → Text → Bool
less_text [] [] = false
less_text [] (b ∷ t) = true
less_text (a ∷ s) [] = false
less_text (a ∷ s) (b ∷ t) =
    let rest = less_text s t in if ltb a b then true else if a == b then rest else false

-- `<` on variants compares the alternatives first.
unfoldable pub less : Constant → Constant → Bool
unfolding less_text
less (int a) (int b) = ltb_ℤ a b
less (int a) (str b) = true
less (str a) (int b) = false
less (str a) (str b) = less_text a b

unfoldable pub compare_to : Constant → Constant → ℤ
unfolding less
compare_to a b = if less a b then negsuc 0 else if less b a then pos 1 else pos 0

-- `std::to_string(int)`: ten digits are enough for an `int`.
show_nat : ℕ → ℕ → Text
show_nat zero n = []
show_nat (suc digits) n =
    let front = show_nat digits (n / 10) in (if ltb n 10 then [] else front) ++ (48 + n % 10) ∷ []

unfoldable pub show_int : ℤ → Text
unfolding show_nat
show_int (pos n) = show_nat 10 n
show_int (negsuc n) = b'-' ∷ show_nat 10 (suc n)

unfoldable pub show_constant : Constant → Text
unfolding show_int
show_constant (int z) = show_int z
show_constant (str s) = s

-- `hash_code`: `char` is signed, and the overflow of an `int` is undefined.
unfoldable pub signed_char : ℕ → ℤ
signed_char c = if ltb c 128 then pos c else negsuc (255 - c)

unfoldable pub checked : ℤ → Result ℤ
checked z = if in_int z then ok z else err undefined

hash_text : ℤ → Text → Result ℤ
unfolding signed_char checked
hash_text h [] = ok h
hash_text h (c ∷ s) = do p ← checked (pos 31 *ℤ h); q ← checked (p +ℤ signed_char c); hash_text q s

unfoldable pub hash_code : Constant → Result ℤ
unfolding hash_text
hash_code (int z) = ok z
hash_code (str s) = hash_text (pos 0) s
