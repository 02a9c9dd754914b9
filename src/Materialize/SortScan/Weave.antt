-- ===== src/Materialize/SortScan/Weave.antt =====
-- The order of the rows of two runs: src/libs/dbcore/materialize/record_comparator.h.
use myc_db.Prelude.{
  ◌≡◌, refl, sym, ap, ◌∙◌, Bool, true, false, List, [], ◌∷◌, ◌++◌, Bool-cases, inl, inr, Result, ok,
  err, Text, append-nil,
}
use mathlib.Core.List.{Perm, perm_middle}
use mathlib.Core.List.Perm
use myc_db.Query.Constant.{Constant, same_constant}
use myc_db.Scan.Contract.{Row}
use myc_db.Materialize.SortScan.{compare}

-- The rows have a value of each of the fields.
abbrev pub HasValues : List Text → Row → Type 0
HasValues [] r = Unit {0}
HasValues (f ∷ fs) r = ((v : Constant) × (r f ≡ ok v)) × HasValues fs r

abbrev pub AllHave : List Text → List Row → Type 0
AllHave fs [] = Unit {0}
AllHave fs (r ∷ rs) = HasValues fs r × AllHave fs rs

abbrev said : Result Bool → Bool
said (ok b) = b
said (err e) = false

-- Some field has the same value in both rows.
pub agree : List Text → Row → Row → Bool
unfolding compare
agree fs l r = said (compare fs l r)

pub compare_lem :
    (fs : List Text) (l r : Row)
    → HasValues fs l
    → HasValues fs r
    → compare fs l r ≡ ok (agree fs l r)
unfolding compare agree
compare_lem [] l r h k = refl
compare_lem (f ∷ fs) l r ((v, e), h) ((w, d), k) =
    go (same_constant v w) (rw (e, d) refl) (compare_lem fs l r h k)
  where
    go :
        (b : Bool)
        → compare (f ∷ fs) l r ≡ elim b [ true ↦ ok true | false ↦ compare fs l r ]
        → compare fs l r ≡ ok (said (compare fs l r))
        → compare (f ∷ fs) l r ≡ ok (said (compare (f ∷ fs) l r))
    go true z rest = z ∙ ap (λ x. ok (said x)) (sym z)
    go false z rest = z ∙ rest ∙ ap (λ x. ok (said x)) (sym z)

-- The rows of two runs in the order of the merge: a row on the right goes first if some field has the
-- same value as in the row on the left, else the row on the left.
pub weave : List Text → List Row → List Row → List Row
unfolding agree
weave fs [] rs = rs
weave fs (l ∷ ls) [] = l ∷ ls
weave fs (l ∷ ls) (r ∷ rs) = elim (agree fs l r) [
  | true ↦ r ∷ weave fs (l ∷ ls) rs
  | false ↦ l ∷ weave fs ls (r ∷ rs)
]

pub weave-empty : (fs : List Text) (ls : List Row) → weave fs ls [] ≡ ls
unfolding weave
weave-empty fs [] = refl
weave-empty fs (l ∷ ls) = refl

pub weave-none : (fs : List Text) (rs : List Row) → weave fs [] rs ≡ rs
unfolding weave
weave-none fs rs = refl

pub weave-later :
    (fs : List Text) (l : Row) (ls : List Row) (r : Row) (rs : List Row)
    → agree fs l r ≡ true
    → weave fs (l ∷ ls) (r ∷ rs) ≡ r ∷ weave fs (l ∷ ls) rs
unfolding weave
weave-later fs l ls r rs b = rw (weave, b) refl

pub weave-first :
    (fs : List Text) (l : Row) (ls : List Row) (r : Row) (rs : List Row)
    → agree fs l r ≡ false
    → weave fs (l ∷ ls) (r ∷ rs) ≡ l ∷ weave fs ls (r ∷ rs)
unfolding weave
weave-first fs l ls r rs b = rw (weave, b) refl

pub weave-Perm : (fs : List Text) (ls rs : List Row) → Perm (weave fs ls rs) (ls ++ rs)
weave-Perm fs [] rs = unfold weave in Perm.refl rs
weave-Perm fs (l ∷ ls) [] = rw (weave-empty fs (l ∷ ls), append-nil (l ∷ ls)) (Perm.refl (l ∷ ls))
weave-Perm fs (l ∷ ls) (r ∷ rs) = elim (Bool-cases (agree fs l r)) [
  | inl b ↦
      rw (weave-later fs l ls r rs b)
        (Perm.trans (Perm.cons r (weave-Perm fs (l ∷ ls) rs)) (Perm.symm (perm_middle (l ∷ ls) rs)))
  | inr b ↦ rw (weave-first fs l ls r rs b) (Perm.cons l (weave-Perm fs ls (r ∷ rs)))
]
