-- ===== src/Materialize/GroupBy/Fresh.antt =====
-- The first row of a group sets the aggregation functions anew: src/libs/dbcore/materialize/fn.
use myc_db.Prelude.{
  ◌≡◌, refl, sym, ap, ◌∙◌, ℤ, true, false, List, [], ◌∷◌, map, pos, Result, ok, err, Op, bind, lift,
  undefined, return, Text, fun_ext,
}
use myc_db.Query.Constant.{Constant, int}
use myc_db.File.Page.{add_int}
use myc_db.Scan.{Scan}
use myc_db.Scan.Contract.{Row}
use myc_db.Materialize.Aggregate.{CmpFn, CountFn, cmp_fn, count_fn, keep_better}
use myc_db.Materialize.GroupBy.{
  AggrFn, cmp, count, fn_first, fn_next, each_fn, then_each, has_fn, find_fn, fn_name, fn_value,
}

-- A row as the scan that stands on it.
abbrev pub row_scan : Scan Row
row_scan = record {
  before_first = λ r. (err undefined, r);
  next = λ r. (err undefined, r);
  get_int = λ f r. err undefined;
  get_str = λ f r. err undefined;
  get_val = λ f r. r f;
  has_field = λ f r. err undefined;
  close = return tt;
}

-- A function without what it has computed so far.
abbrev pub reset : AggrFn → AggrFn
reset (cmp f) = cmp (record f { val = int (pos 0) })
reset (count f) = count (record f { count = pos 0 })

with_val : CmpFn → Result Constant → Result (Unit {0}) × AggrFn
with_val f (ok v) = (ok tt, cmp (record f { val = v }))
with_val f (err e) = (err e, cmp f)

fn_first_cmp : (r : Row) (f : CmpFn) → fn_first row_scan r (cmp f) ≡ with_val f (r f.fldname)
unfolding fn_first cmp_fn with_val
fn_first_cmp r f = go (r f.fldname)
  where
    go :
        (x : Result Constant)
        → (
          (bind (lift x) (λ v g. (ok tt, record g { val = v })) f).0,
          cmp (bind (lift x) (λ v g. (ok tt, record g { val = v })) f).1,
        )
          ≡ with_val f x
    go (ok v) = refl
    go (err e) = refl

with_val_reset :
    (f : CmpFn) (x : Result Constant)
    → (with_val (record f { val = int (pos 0) }) x).0 ≡ ok tt
    → with_val f x ≡ with_val (record f { val = int (pos 0) }) x
unfolding with_val
with_val_reset f (ok v) h = refl
with_val_reset f (err e) h = cc

fn_first-reset :
    (r : Row) (f : AggrFn)
    → (fn_first row_scan r (reset f)).0 ≡ ok tt
    → fn_first row_scan r f ≡ fn_first row_scan r (reset f)
unfolding fn_first count_fn
fn_first-reset r (cmp f) h =
    let f' = record f { val = int (pos 0) } in
    fn_first_cmp r f
    ∙ with_val_reset f (r f.fldname) (ap (λ x. x.0) (sym (fn_first_cmp r f')) ∙ h)
    ∙ sym (fn_first_cmp r f')
fn_first-reset r (count f) h = refl

pub reset-fn_first : (r : Row) (f : AggrFn) → reset (fn_first row_scan r f).1 ≡ reset f
unfolding with_val fn_first count_fn
reset-fn_first r (cmp f) = ap (λ x. reset x.1) (fn_first_cmp r f) ∙ go (r f.fldname)
  where
    go : (x : Result Constant) → reset (with_val f x).1 ≡ reset (cmp f)
    go (ok v) = refl
    go (err e) = refl
reset-fn_first r (count f) = refl

reset-keep_better :
    (f : CmpFn) (x : Result Constant) → reset (cmp (bind (lift x) keep_better f).1) ≡ reset (cmp f)
unfolding keep_better
reset-keep_better f (ok v) =
    elim (f.cmp_func v f.val)
      as (λ b. reset (cmp (elim b [ true ↦ record f { val = v } | false ↦ f ])) ≡ reset (cmp f)) [
        | true ↦ refl
        | false ↦ refl
      ]
reset-keep_better f (err e) = refl

reset-count_next :
    (f : CountFn) (x : Result ℤ)
    → reset (count (bind (lift x) (λ n g. (ok tt, record g { count = n })) f).1) ≡ reset (count f)
reset-count_next f (ok n) = refl
reset-count_next f (err e) = refl

pub reset-fn_next : (r : Row) (f : AggrFn) → reset (fn_next row_scan r f).1 ≡ reset f
unfolding fn_next cmp_fn count_fn
reset-fn_next r (cmp f) = reset-keep_better f (r f.fldname)
reset-fn_next r (count f) = reset-count_next f (add_int f.count (pos 1))

-- A call on each function leaves the resets as they are, if it does so on one.
pub map-reset-each_fn :
    (call : Op AggrFn (Unit {0})) (fs : List AggrFn)
    → ((f : AggrFn) → reset (call f).1 ≡ reset f)
    → map reset (each_fn call fs).1 ≡ map reset fs
unfolding each_fn
map-reset-each_fn call [] h = refl
map-reset-each_fn call (f ∷ fs) h = kept (call f) (h f) (map-reset-each_fn call fs h)
  where
    kept :
        (r : Result (Unit {0}) × AggrFn)
        → reset r.1 ≡ reset f
        → map reset (each_fn call fs).1 ≡ map reset fs
        → map reset (then_each fs (each_fn call fs) r).1 ≡ reset f ∷ map reset fs
    kept (err e, g) a b = ap (λ x. x ∷ map reset fs) a
    kept (ok u, g) a b = cc

-- A row that the functions take as their first one after a reset is taken in the same way without.
pub each_fn-map-reset :
    (r : Row) (fs : List AggrFn)
    → (each_fn (fn_first row_scan r) (map reset fs)).0 ≡ ok tt
    → each_fn (fn_first row_scan r) fs ≡ each_fn (fn_first row_scan r) (map reset fs)
unfolding each_fn
each_fn-map-reset r [] h = refl
each_fn-map-reset r (f ∷ fs) h =
    rw (fn_first-reset r f (first_ok _ h), each_fn-map-reset r fs (rest_ok _ h))
      (no_throw _ (first_ok _ h))
  where
    first_ok :
        (x : Result (Unit {0}) × AggrFn)
        → (then_each (map reset fs) (each_fn (fn_first row_scan r) (map reset fs)) x).0 ≡ ok tt
        → x.0 ≡ ok tt
    first_ok (err e, g) k = cc
    first_ok (ok u, g) k = refl

    rest_ok :
        (x : Result (Unit {0}) × AggrFn)
        → (then_each (map reset fs) (each_fn (fn_first row_scan r) (map reset fs)) x).0 ≡ ok tt
        → (each_fn (fn_first row_scan r) (map reset fs)).0 ≡ ok tt
    rest_ok (err e, g) k = cc
    rest_ok (ok u, g) k = k

    no_throw :
        (x : Result (Unit {0}) × AggrFn)
        → x.0 ≡ ok tt
        → then_each fs (each_fn (fn_first row_scan r) (map reset fs)) x
          ≡ then_each (map reset fs) (each_fn (fn_first row_scan r) (map reset fs)) x
    no_throw (err e, g) k = cc
    no_throw (ok u, g) k = refl

-- A scan that stands on a row gives the functions what the row does.
pub fn_first-row_scan :
    {S : Type 0} (sc : Scan S) (s : S) (r : Row)
    → (λ f. sc.get_val f s) ≡ r
    → fn_first sc s ≡ fn_first row_scan r
unfolding fn_first cmp_fn count_fn
fn_first-row_scan sc s r e = fun_ext (λ f. go f)
  where
    go : (f : AggrFn) → fn_first sc s f ≡ fn_first row_scan r f
    go (cmp f) = rw (ap (λ (x : Row). x f.fldname) e) refl
    go (count f) = refl

pub fn_next-row_scan :
    {S : Type 0} (sc : Scan S) (s : S) (r : Row)
    → (λ f. sc.get_val f s) ≡ r
    → fn_next sc s ≡ fn_next row_scan r
unfolding fn_next cmp_fn count_fn
fn_next-row_scan sc s r e = fun_ext (λ f. go f)
  where
    go : (f : AggrFn) → fn_next sc s f ≡ fn_next row_scan r f
    go (cmp f) = rw (ap (λ (x : Row). x f.fldname) e) refl
    go (count f) = refl

-- The names and values of the functions do not depend on the scan.
pub find_fn-row_scan :
    {S : Type 0} (sc : Scan S) (fs : List AggrFn) (name : Text)
    → find_fn sc fs name ≡ find_fn row_scan fs name
unfolding find_fn fn_name fn_value cmp_fn count_fn
find_fn-row_scan sc [] name = refl
find_fn-row_scan sc (cmp f ∷ fs) name = rw (find_fn-row_scan sc fs name) refl
find_fn-row_scan sc (count f ∷ fs) name = rw (find_fn-row_scan sc fs name) refl

pub has_fn-map-reset :
    {S : Type 0} (sc : Scan S) (fs : List AggrFn) (name : Text)
    → has_fn sc fs name ≡ has_fn row_scan (map reset fs) name
unfolding has_fn fn_name cmp_fn count_fn
has_fn-map-reset sc [] name = refl
has_fn-map-reset sc (cmp f ∷ fs) name = rw (has_fn-map-reset sc fs name) refl
has_fn-map-reset sc (count f ∷ fs) name = rw (has_fn-map-reset sc fs name) refl

pub map-reset_twice : (fs : List AggrFn) → map reset (map reset fs) ≡ map reset fs
map-reset_twice [] = refl
map-reset_twice (cmp f ∷ fs) = ap (λ x. reset (cmp f) ∷ x) (map-reset_twice fs)
map-reset_twice (count f ∷ fs) = ap (λ x. reset (count f) ∷ x) (map-reset_twice fs)
