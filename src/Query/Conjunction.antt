-- ===== src/Query/Conjunction.antt =====
-- When a predicate, a conjunction of terms, is satisfied: src/libs/dbcore/query/predicate.h.
use myc_db.Prelude.{
  ◌≡◌, refl, subst, Bool, true, false, List, [], ◌∷◌, ◌++◌, some, arith, if◌then◌else◌, Result, ok,
  ◌>>=◌, >>=-eq-ok, Text,
}
use myc_db.Query.Constant.{Constant}
use myc_db.Query.Predicate.{
  Predicate, conjoin_with, all_satisfied, holds, select, unless_empty, select_sub_pred,
}
use myc_db.Query.Term.{Term, is_satisfied, term_applies_to}
use myc_db.Record.Schema.{Schema}

module _ (get_val : Text → Result Constant) where
  all_satisfied-++ :
      (ts us : List Term)
      → all_satisfied get_val (ts ++ us)
        ≡ all_satisfied get_val ts >>= λ b. if b then all_satisfied get_val us else ok false
  unfolding all_satisfied
  all_satisfied-++ [] us = refl
  all_satisfied-++ (t ∷ ts) us = ground (arith, all_satisfied-++ ts us)

-- A conjunction is evaluated from the left: the second predicate counts where the first holds, and an
-- exception of the first ends the evaluation.
pub holds-conjoin_with :
    (get_val : Text → Result Constant) (p q : Predicate)
    → holds get_val (conjoin_with p q)
      ≡ holds get_val p >>= λ b. if b then holds get_val q else ok false
unfolding holds conjoin_with
holds-conjoin_with get_val p q = all_satisfied-++ get_val p.terms q.terms

satisfied_cases :
    (get_val : Text → Result Constant) (t : Term) (ts : List Term) (b : Bool)
    → is_satisfied get_val t ≡ ok b
    → elim b [ true ↦ all_satisfied get_val ts | false ↦ ok false ] ≡ ok true
    → (is_satisfied get_val t ≡ ok true) × (all_satisfied get_val ts ≡ ok true)
satisfied_cases get_val t ts true e k = (e, k)
satisfied_cases get_val t ts false e k = cc

ok_inj : {A : Type 0} {a b : A} → ok a ≡ ok b → a ≡ b
ok_inj e = cc

all_satisfied-inv :
    (get_val : Text → Result Constant) (t : Term) (ts : List Term)
    → all_satisfied get_val (t ∷ ts) ≡ ok true
    → (is_satisfied get_val t ≡ ok true) × (all_satisfied get_val ts ≡ ok true)
unfolding all_satisfied
all_satisfied-inv get_val t ts h =
    let (b, e, k) = >>=-eq-ok (is_satisfied get_val t) _ h in satisfied_cases get_val t ts b e k

keep_satisfied :
    (get_val : Text → Result Constant) (t : Term) (ts : List Term) (kept : Bool)
    → is_satisfied get_val t ≡ ok true
    → all_satisfied get_val ts ≡ ok true
    → all_satisfied get_val (if kept then t ∷ ts else ts) ≡ ok true
unfolding all_satisfied
keep_satisfied get_val t ts true e h = rw e h
keep_satisfied get_val t ts false e h = h

-- The terms that a selection keeps hold where the whole predicate does.
all_satisfied-select :
    (get_val : Text → Result Constant) (test : Term → Result Bool) (ts us : List Term)
    → all_satisfied get_val ts ≡ ok true
    → select test ts ≡ ok us
    → all_satisfied get_val us ≡ ok true
unfolding select
all_satisfied-select get_val test [] us h e = ground arith
all_satisfied-select get_val test (t ∷ ts) us h e =
    let (c, hc, d) = >>=-eq-ok (test t) _ e in
    let (vs, hv, f) = >>=-eq-ok (select test ts) _ d in
    let (now, later) = all_satisfied-inv get_val t ts h in
    let kept =
      keep_satisfied get_val t vs c now (all_satisfied-select get_val test ts vs later hv) in
    subst (λ l. all_satisfied get_val l ≡ ok true) (ok_inj f) kept

unless_empty-some : (ts : List Term) (q : Predicate) → unless_empty ts ≡ some q → ts ≡ q.terms
unfolding unless_empty
unless_empty-some [] q e = cc
unless_empty-some (t ∷ ts) q e = cc

-- A row that satisfies a predicate satisfies the part that `select_sub_pred` hands to one table.
pub select_sub_pred-holds :
    (get_val : Text → Result Constant) (p q : Predicate) (sch : Schema)
    → holds get_val p ≡ ok true
    → select_sub_pred p sch ≡ ok (some q)
    → holds get_val q ≡ ok true
unfolding holds select_sub_pred unless_empty
select_sub_pred-holds get_val p q sch h e =
    let (us, hu, f) = >>=-eq-ok (select (λ t. term_applies_to t sch) p.terms) _ e in
    let ih = all_satisfied-select get_val (λ t. term_applies_to t sch) p.terms us h hu in
    subst (λ l. all_satisfied get_val l ≡ ok true) (unless_empty-some us q (ok_inj f)) ih
