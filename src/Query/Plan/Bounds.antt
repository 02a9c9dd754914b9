-- ===== src/Query/Plan/Bounds.antt =====
-- What the estimates of a selection keep to: src/libs/dbcore/query/plan/select_plan.h, with the
-- reduction of src/libs/dbcore/query/term.h and predicate.h.
use myc_db.Prelude.{
  ℕ, zero, suc, ◌+◌, ◌-◌, ◌*◌, ◌/◌, ◌^◌, ◌<◌, ◌≤◌, ◌≡◌, refl, ap, ◌⊎◌, inl, inr, Bool, true, false,
  Option, none, some, List, [], ◌∷◌, arith, Bool-cases, if◌then◌else◌, ltb, ℤ, pos, ◌*ℤ◌, in_int,
  undefined, Result, ok, err, Text,
}
use native.Mathlib.Nat.{div-le_self}
use myc_db.Metadata.StatInfo.{StatInfo, stat_distinct, divide_size, quotient}
use myc_db.Query.Constant.{Constant, same_constant, checked}
use myc_db.Query.Expression.{
  Expression, of_constant, of_field, is_field_name, as_field_name, as_constant,
}
use myc_db.Query.Predicate.{Predicate, reduce, reduction}
use myc_db.Query.Term.{Term, to_int, calculate_reduction}
use myc_db.Query.Plan.{Plan, table_plan, select_plan}
use myc_db.Record.Layout.{Layout}

-- The plan estimates a field to have so many values, a positive `int`.
abbrev pub Estimates : (Text → Result ℕ) → (Text → ℕ) → Type 0
Estimates distinct_values values =
    (f : Text) → (distinct_values f ≡ ok (values f)) × (0 < values f) × (values f < 2 ^ 31)

-- An expression that was not moved from.
pub data IsMade (e : Expression) : Type 0 where
  a_constant : (c : Constant) → e ≡ of_constant c → IsMade e
  a_field : (f : Text) → e ≡ of_field f → IsMade e

abbrev pub AllMade : List Term → Type 0
AllMade [] = Unit {0}
AllMade (t ∷ ts) = (IsMade t.lhs × IsMade t.rhs) × AllMade ts

-- By how much a term reduces a table: the larger number of values of its fields, and for two constants 1
-- or the largest `int`.
abbrev pub larger : ℕ → ℕ → ℕ
larger m n = if ltb m n then n else m

abbrev pub weight_constants : Option Constant → Option Constant → ℕ
weight_constants (some a) (some b) = if same_constant a b then 1 else 2 ^ 31 - 1
weight_constants _ _ = 1

abbrev pub weight_fields : Option Text → Option Text → ℕ → (Text → ℕ) → ℕ
weight_fields (some f) (some g) n values = larger (values f) (values g)
weight_fields (some f) none n values = values f
weight_fields none (some g) n values = values g
weight_fields none none n values = n

abbrev pub weight : (Text → ℕ) → Term → ℕ
weight values t =
    weight_fields t.lhs.fldname t.rhs.fldname (weight_constants t.lhs.val t.rhs.val) values

pub product : (Text → ℕ) → List Term → ℕ
product values [] = 1
product values (t ∷ ts) = weight values t * product values ts

abbrev Reduces : Result ℤ → ℕ → Type 0
Reduces r n = (r ≡ ok (pos n)) × (0 < n) × (n < 2 ^ 31)

to_int_lem : (n : ℕ) → 0 < n → n < 2 ^ 31 → to_int n ≡ pos n
to_int_lem n h k = ground arith

converted : (n : ℕ) → 0 < n → n < 2 ^ 31 → Reduces (ok (to_int n)) n
converted n h k = (ap ok (to_int_lem n h k), h, k)

larger_lem :
    (m n : ℕ)
    → 0 < m
    → m < 2 ^ 31
    → 0 < n
    → n < 2 ^ 31
    → Reduces (ok (to_int (larger m n))) (larger m n)
larger_lem m n hm km hn kn = elim (Bool-cases (ltb m n)) [
  | inl b ↦ rw b (converted n hn kn)
  | inr b ↦ rw b (converted m hm km)
]

one_or_most :
    (b : Bool) → Reduces (ok (if b then pos 1 else pos (2 ^ 31 - 1))) (if b then 1 else 2 ^ 31 - 1)
one_or_most true = (refl, omega arith, omega arith)
one_or_most false = (refl, omega arith, omega arith)

in_int-small : (n : ℕ) → in_int (pos n) ≡ true → n < 2 ^ 31
in_int-small n h = ground arith

in_int-big : (n : ℕ) → in_int (pos n) ≡ false → 2 ^ 31 ≤ n
in_int-big n h = ground arith

le_mul : (x p : ℕ) → 0 < p → x ≤ x * p
le_mul x p h = grind arith

module _ (distinct_values : Text → Result ℕ) (values : Text → ℕ)
    (d : Estimates distinct_values values) where
  term_lem :
      (t : Term)
      → IsMade t.lhs
      → IsMade t.rhs
      → Reduces (calculate_reduction distinct_values t) (weight values t)
  unfolding calculate_reduction is_field_name as_field_name as_constant
  term_lem t (a_constant a e) (a_constant b k) = rw (e, k) (one_or_most (same_constant a b))
  term_lem t (a_constant a e) (a_field g k) =
      let (v, h, l) = d g in rw (e, k, v) (converted (values g) h l)
  term_lem t (a_field f e) (a_constant b k) =
      let (v, h, l) = d f in rw (e, k, v) (converted (values f) h l)
  term_lem t (a_field f e) (a_field g k) =
      let (u, hm, lm) = d f in
      let (v, hn, ln) = d g in rw (e, k, u, v) (larger_lem (values f) (values g) hm lm hn ln)

  product-positive : (ts : List Term) → AllMade ts → 0 < product values ts
  unfolding product
  product-positive [] h = omega arith
  product-positive (t ∷ ts) ((l, r), h) =
      let (e, z, b) = term_lem t l r in
      let rest = product-positive ts h in
      let big = le_mul (weight values t) (product values ts) rest in omega (arith, z, big)

  -- The product of the terms, which is undefined where it leaves the range of an `int`.
  reduce_lem :
      (ts : List Term) (a : ℕ)
      → AllMade ts
      → a < 2 ^ 31
      → ((a * product values ts < 2 ^ 31)
          × (reduce distinct_values (pos a) ts ≡ ok (pos (a * product values ts))))
        ⊎ ((2 ^ 31 ≤ a * product values ts) × (reduce distinct_values (pos a) ts ≡ err undefined))
  unfolding reduce checked product
  reduce_lem [] a h k = inl (omega arith, ap (λ n. ok (pos n)) (omega arith))
  reduce_lem (t ∷ ts) a ((l, r), h) k =
      let (e, z, b) = term_lem t l r in
      let w = weight values t in
      let times : pos a *ℤ pos w ≡ pos (a * w) = ground arith in
      let same : (a * w) * product values ts ≡ a * (w * product values ts) = grind arith in
      let big = le_mul (a * w) (product values ts) (product-positive ts h) in
      elim (Bool-cases (in_int (pos (a * w)))) [
        | inl i ↦ rw (e, times, i, ← same) (reduce_lem ts (a * w) h (in_int-small (a * w) i))
        | inr i ↦ rw (e, times, i, ← same) (inr (omega (arith, big, in_int-big (a * w) i), refl))
      ]

divide_lem : (n k : ℕ) → 0 < k → divide_size n k ≡ ok (n / k)
unfolding divide_size
divide_lem n zero h = absurd (omega arith)
divide_lem n (suc k) h = refl

-- Over a plan that estimates its records, and for each field the number of its values as a positive
-- `int`, take a selection by a predicate that was not moved from. A term reduces by the larger number
-- of values of its fields, or by 1 or the largest `int` if it has two constants, equal or not. If the
-- product of these is an `int`, the records of the selection are those of the plan divided by it, at
-- most as many; if it is not, they are undefined. No term makes the selection divide by 0.
pub select_plan-records :
    (p : Plan) (pred : Predicate) (n : ℕ) (values : Text → ℕ)
    → p.records ≡ ok n
    → Estimates p.distinct_values values
    → AllMade pred.terms
    → ((product values pred.terms < 2 ^ 31)
        × ((select_plan p pred).records ≡ ok (n / product values pred.terms))
        × (n / product values pred.terms ≤ n))
      ⊎ ((2 ^ 31 ≤ product values pred.terms) × ((select_plan p pred).records ≡ err undefined))
unfolding select_plan reduction
select_plan-records p pred n values e d h =
    let k = product values pred.terms in
    let one : 1 * k ≡ k = omega arith in
    let positive = product-positive p.distinct_values values d pred.terms h in
    elim (reduce_lem p.distinct_values values d pred.terms 1 h (omega arith)) [
      | inl (small, r) ↦
          inl (omega arith, rw (e, r, one) (divide_lem n k positive), div-le_self n k)
      | inr (big, r) ↦ inr (omega arith, rw (e, r) refl)
    ]

-- The number of values that a table of this many records is estimated to have in each field.
pub table_plan-Estimates :
    (s : StatInfo) (l : Layout) (n : ℕ)
    → s.num_recs ≡ pos n
    → n < 2 ^ 31
    → Estimates (table_plan s l).distinct_values (λ f. 1 + n / 3)
unfolding table_plan stat_distinct quotient
table_plan-Estimates s l n e h f = rw e (ap ok (ground arith), omega arith, omega arith)
