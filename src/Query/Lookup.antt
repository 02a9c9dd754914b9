-- ===== src/Query/Lookup.antt =====
-- What the lookups of a predicate find: `equates_with_constant` of src/libs/dbcore/query/predicate.h.
use myc_db.Prelude.{
  zero, suc, negsuc, ◌≡◌, refl, sym, ap, ◌∙◌, Bool, true, false, List, ◌∷◌, arith, ℤ, pos, ◌==ℤ◌,
  Result, ok, >>=-eq-ok, Text,
}
use myc_db.Query.Constant.{Constant, int, str, as_int, as_str}
use myc_db.Query.Predicate.{is_found, first_constant, find_constant}
use myc_db.Query.Term.{Term, equates_with_constant}

-- A nonzero `int` is the one constant that the test of the loop lets pass: on 0 it asks for the
-- string, on a string for the `int`, and both throw.
is_found_lem :
    (c : Constant) (b : Bool)
    → is_found c ≡ ok b
    → (b ≡ true) × (z : ℤ) × (c ≡ int z) × ((z ==ℤ pos 0) ≡ false)
unfolding is_found as_int as_str
is_found_lem (int (pos zero)) b e = cc
is_found_lem (int (pos (suc n))) b e = (ground arith, pos (suc n), refl, ground arith)
is_found_lem (int (negsuc n)) b e = (ground arith, negsuc n, refl, ground arith)
is_found_lem (str s) b e = cc

returned :
    (d : Constant) (b : Bool) (r : Result Constant) {c : Constant}
    → b ≡ true
    → elim b [ true ↦ ok d | false ↦ r ] ≡ ok c
    → d ≡ c
returned d true r found k = cc
returned d false r found k = cc

loop_step :
    (t : Term) (ts : List Term) (fldname : Text) (c d : Constant) (b : Bool)
    → equates_with_constant t fldname ≡ ok d
    → is_found d ≡ ok b
    → elim b [ true ↦ ok d | false ↦ first_constant ts fldname ] ≡ ok c
    → (equates_with_constant t fldname ≡ ok c) × (z : ℤ) × (c ≡ int z) × ((z ==ℤ pos 0) ≡ false)
loop_step t ts fldname c d b e f k =
    let (found, z, is_int, nonzero) = is_found_lem d b f in
    let same = returned d b _ found k in (e ∙ ap ok same, z, sym same ∙ is_int, nonzero)

-- On a predicate that has a term, `equates_with_constant` returns only what its first term gives,
-- and only when that is a nonzero `int`. Later terms are never asked.
pub find_constant_first :
    (t : Term) (ts : List Term) (fldname : Text) (c : Constant)
    → find_constant (record { terms = t ∷ ts }) fldname ≡ ok c
    → (equates_with_constant t fldname ≡ ok c) × (z : ℤ) × (c ≡ int z) × ((z ==ℤ pos 0) ≡ false)
unfolding find_constant first_constant
find_constant_first t ts fldname c e =
    let (d, hd, k) = >>=-eq-ok (equates_with_constant t fldname) _ e in
    let (b, hb, j) = >>=-eq-ok (is_found d) _ k in loop_step t ts fldname c d b hd hb j
