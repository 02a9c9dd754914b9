-- ===== src/Materialize/Extremes.antt =====
-- What the aggregation functions give for a group of rows: src/libs/dbcore/materialize/fn/cmp_fn.h.
use myc_db.Prelude.{
  ◌≡◌, refl, ap, inl, inr, Bool, true, false, List, [], ◌∷◌, ok, Op, bind, return, Text, Bool-cases,
}
use myc_db.Query.Constant.{Constant, less}
use myc_db.Query.Order.{less_irrefl, less_asym, less_neg}
use myc_db.Scan.{Scan}
use myc_db.Materialize.Aggregate.{
  AggregateFn, CmpFn, cmp_fn, keep_better, create_max_func, create_min_func, make_cmp_fn,
}

-- The rows of a group after its first.
abbrev pub process_rest : {S F : Type 0} → AggregateFn S F → List S → Op F (Unit {0})
process_rest a [] = return tt
process_rest a (s ∷ ss) = bind (a.process_next s) λ done. process_rest a ss

-- A group: `process_first` on its first row, and `process_next` on each other.
abbrev pub process_group : {S F : Type 0} → AggregateFn S F → S → List S → Op F (Unit {0})
process_group a s ss = bind (a.process_first s) λ done. process_rest a ss

-- The scan has the values `vs` of the field on the rows.
pub data HasValues {S : Type 0} (sc : Scan S) (f : Text) : List S → List Constant → Type 0 where
  none_left : HasValues sc f [] []
  one_more :
      (s : S) (v : Constant) (ss : List S) (vs : List Constant)
      → sc.get_val f s ≡ ok v
      → HasValues sc f ss vs
      → HasValues sc f (s ∷ ss) (v ∷ vs)

-- `m` is one of the values.
pub data OneOf (m : Constant) : List Constant → Type 0 where
  here : (vs : List Constant) → OneOf m (m ∷ vs)
  there : (v : Constant) (vs : List Constant) → OneOf m vs → OneOf m (v ∷ vs)

-- No value is better than `m`.
pub data NoneBetter (better : Constant → Constant → Bool) (m : Constant)
    : List Constant → Type 0 where
  no_more : NoneBetter better m []
  not_better :
      (v : Constant) (vs : List Constant)
      → better v m ≡ false
      → NoneBetter better m vs
      → NoneBetter better m (v ∷ vs)

-- A strict order in which values that are not better than each other are alike.
record IsWeakOrder (better : Constant → Constant → Bool) : Type 0 where
  irrefl : (a : Constant) → better a a ≡ false
  asym : (a b : Constant) → better a b ≡ true → better b a ≡ false
  neg : (a b c : Constant) → better a b ≡ false → better b c ≡ false → better a c ≡ false

skip :
    {w : Constant} (m v : Constant) (vs : List Constant) → OneOf w (m ∷ vs) → OneOf w (m ∷ v ∷ vs)
skip m v vs (here _) = here (v ∷ vs)
skip m v vs (there _ _ h) = there m (v ∷ vs) (there v vs h)

head_none :
    {better : Constant → Constant → Bool} {w v : Constant} {vs : List Constant}
    → NoneBetter better w (v ∷ vs)
    → (better v w ≡ false) × NoneBetter better w vs
head_none (not_better v vs h k) = (h, k)

module _ (better : Constant → Constant → Bool) where
  abbrev choose : Bool → Constant → Constant → Constant
  choose true v m = v
  choose false v m = m

  unfoldable best : Constant → List Constant → Constant
  best m [] = m
  best m (v ∷ vs) = best (choose (better v m) v m) vs

  best_next :
      (m v : Constant) (vs : List Constant) (c : Bool)
      → better v m ≡ c
      → best m (v ∷ vs) ≡ best (choose c v m) vs
  unfolding best
  best_next m v vs c e = ap (λ d. best (choose d v m) vs) e

  best-OneOf : (m : Constant) (vs : List Constant) → OneOf (best m vs) (m ∷ vs)
  unfolding best
  best-OneOf m [] = here []
  best-OneOf m (v ∷ vs) = elim (Bool-cases (better v m)) [
    | inl e ↦ rw (best_next m v vs true e) (there m (v ∷ vs) (best-OneOf v vs))
    | inr e ↦ rw (best_next m v vs false e) (skip m v vs (best-OneOf m vs))
  ]

  best-NoneBetter :
      (m : Constant) (vs : List Constant)
      → IsWeakOrder better
      → NoneBetter better (best m vs) (m ∷ vs)
  unfolding best
  best-NoneBetter m [] o = not_better m [] (o.irrefl m) no_more
  best-NoneBetter m (v ∷ vs) o = elim (Bool-cases (better v m)) [
    | inl e ↦
        let (h, k) = head_none (best-NoneBetter v vs o) in
        rw (best_next m v vs true e)
          (not_better m (v ∷ vs) (o.neg m v (best v vs) (o.asym v m e) h) (not_better v vs h k))
    | inr e ↦
        let (h, k) = head_none (best-NoneBetter m vs o) in
        rw (best_next m v vs false e)
          (not_better m (v ∷ vs) h (not_better v vs (o.neg v m (best m vs) e h) k))
  ]

process_rest_lem :
    {S : Type 0} (sc : Scan S) (f : CmpFn) (ss : List S) (vs : List Constant)
    → HasValues sc f.fldname ss vs
    → process_rest (cmp_fn sc) ss f ≡ (ok tt, record f { val = best f.cmp_func f.val vs })
unfolding cmp_fn keep_better best
process_rest_lem sc f [] [] none_left = refl
process_rest_lem sc f [] (v ∷ vs) h = elim h [ ]
process_rest_lem sc f (s ∷ ss) [] h = elim h [ ]
process_rest_lem sc f (s ∷ ss) (v ∷ vs) (one_more _ _ _ _ e h) =
    elim (Bool-cases (f.cmp_func v f.val)) [
      | inl k ↦
          rw (e, best_next f.cmp_func f.val v vs true k, k)
            (process_rest_lem sc (record f { val = v }) ss vs h)
      | inr k ↦ rw (e, best_next f.cmp_func f.val v vs false k, k) (process_rest_lem sc f ss vs h)
    ]

process_group_lem :
    {S : Type 0} (sc : Scan S) (f : CmpFn) (s : S) (v : Constant) (ss : List S) (vs : List Constant)
    → sc.get_val f.fldname s ≡ ok v
    → HasValues sc f.fldname ss vs
    → process_group (cmp_fn sc) s ss f ≡ (ok tt, record f { val = best f.cmp_func v vs })
unfolding cmp_fn
process_group_lem sc f s v ss vs e h = rw e (process_rest_lem sc (record f { val = v }) ss vs h)

less-IsWeakOrder : IsWeakOrder less
less-IsWeakOrder = record { irrefl = less_irrefl; asym = less_asym; neg = less_neg }

more-IsWeakOrder : IsWeakOrder (λ a b. less b a)
more-IsWeakOrder = record {
  irrefl = less_irrefl;
  asym = λ a b. less_asym b a;
  neg = λ a b c h k. less_neg c b a k h;
}

-- The largest and the smallest value.
abbrev pub IsMax : List Constant → Constant → Type 0
IsMax vs m = OneOf m vs × NoneBetter (λ a b. less b a) m vs

abbrev pub IsMin : List Constant → Constant → Type 0
IsMin vs m = OneOf m vs × NoneBetter less m vs

-- On the rows of a group the function of create_max_func gives the largest of the values of its
-- field and the one of create_min_func the smallest, whatever value they kept before, where the
-- scan has a value of the field on each row.
pub create_max_func-create_min_func :
    {S : Type 0} (sc : Scan S) (name : Text) (s : S) (v w : Constant) (ss : List S)
    (vs : List Constant)
    → sc.get_val name s ≡ ok v
    → HasValues sc name ss vs
    → (m : Constant) × (n : Constant) × (process_group
          (cmp_fn sc)
          s
          ss
          (record (create_max_func name) { val = w })
        ≡ (ok tt, record (create_max_func name) { val = m }))
      × IsMax (v ∷ vs) m
      × (process_group (cmp_fn sc) s ss (record (create_min_func name) { val = w })
          ≡ (ok tt, record (create_min_func name) { val = n }))
      × IsMin (v ∷ vs) n
unfolding create_max_func create_min_func make_cmp_fn
create_max_func-create_min_func sc name s v w ss vs e h = (
  best (λ a b. less b a) v vs,
  best less v vs,
  process_group_lem sc (record (create_max_func name) { val = w }) s v ss vs e h,
  (best-OneOf (λ a b. less b a) v vs, best-NoneBetter (λ a b. less b a) v vs more-IsWeakOrder),
  process_group_lem sc (record (create_min_func name) { val = w }) s v ss vs e h,
  (best-OneOf less v vs, best-NoneBetter less v vs less-IsWeakOrder),
)
