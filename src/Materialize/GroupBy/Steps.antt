-- ===== src/Materialize/GroupBy/Steps.antt =====
-- One round of the loop of a scan of groups, and one call of its `next`: src/libs/dbcore/materialize/group_by_scan.h.
use myc_db.Prelude.{
  ℕ, suc, ◌≡◌, refl, ap, true, false, List, some, if◌then◌else◌, ok, Text, continue, Result,
}
use myc_db.Scan.{Scan}
use myc_db.Scan.Project.{is_listed}
use myc_db.Materialize.GroupBy.{
  GroupValue, make_group_value, group_value_at, same_group, AggrFn, fn_first, fn_next, each_fn,
  find_fn, GroupByScan, collect, take_group, group_next, group_get_val,
}
use myc_db.Materialize.GroupBy.Fresh.{row_scan, find_fn-row_scan}

-- One round of the loop.
module _ {S : Type 0} (sc : Scan S) (group_fields : List Text) (v : GroupValue) (n : ℕ)
    (g : GroupByScan S) where
  pub collect_stop :
      (sc.next g.base).0 ≡ ok false
      → collect sc group_fields v (suc n) g
        ≡ (ok tt, record g { base = (sc.next g.base).1; more_groups = false })
  unfolding collect
  collect_stop e = rw (collect, e) refl

  module _ (w : GroupValue) (e : (sc.next g.base).0 ≡ ok true)
      (k : make_group_value (λ f. sc.get_val f (sc.next g.base).1) group_fields ≡ ok w) where
    pub collect_other :
        same_group v w ≡ ok false
        → collect sc group_fields v (suc n) g
          ≡ (ok tt, record g { base = (sc.next g.base).1; more_groups = true })
    unfolding collect
    collect_other d = rw (collect, e, continue, k, d) refl

    pub collect_same :
        (fs : List AggrFn)
        → same_group v w ≡ ok true
        → each_fn (fn_next sc (sc.next g.base).1) g.aggr_funcs ≡ (ok tt, fs)
        → collect sc group_fields v (suc n) g
          ≡ collect sc group_fields v n
              (record g { base = (sc.next g.base).1; aggr_funcs = fs; more_groups = true })
    unfolding collect
    collect_same fs d h = rw (collect, e, continue, k, d, h) refl

-- A step that ended well, with its state.
pub ended : {A : Type 0} (r : Result (Unit {0}) × A) → r.0 ≡ ok tt → r ≡ (ok tt, r.1)
ended r h = ap (λ (x : Result (Unit {0})). (x, r.1)) h

module _ {S : Type 0} (sc : Scan S) (group_fields : List Text) (n : ℕ) (g : GroupByScan S) where
  pub next_over : g.more_groups ≡ false → group_next sc group_fields n g ≡ (ok false, g)
  unfolding group_next
  next_over e = rw (group_next, e) (ap (λ b. (ok false, record g { more_groups = b })) e)

  -- The state in which the loop starts on the group of the row below.
  abbrev pub in_group : List AggrFn → GroupValue → GroupByScan S
  in_group fs v = record g { aggr_funcs = fs; group_val = some v }

  pub take_group_lem :
      (fs : List AggrFn) (v : GroupValue)
      → each_fn (fn_first sc g.base) g.aggr_funcs ≡ (ok tt, fs)
      → make_group_value (λ f. sc.get_val f g.base) group_fields ≡ ok v
      → (collect sc group_fields v n (in_group fs v)).0 ≡ ok tt
      → take_group sc group_fields n g ≡ (ok true, (collect sc group_fields v n (in_group fs v)).1)
  unfolding take_group
  take_group_lem fs v h k d = rw (take_group, h, continue, k, d) refl

  pub next_group :
      g.more_groups ≡ true → group_next sc group_fields n g ≡ take_group sc group_fields n g
  unfolding group_next
  next_group e =
      rw (group_next, e) (ap (λ b. take_group sc group_fields n (record g { more_groups = b })) e)

  pub get_val_lem :
      (v : GroupValue) (fs : List AggrFn) (f : Text)
      → g.group_val ≡ some v
      → g.aggr_funcs ≡ fs
      → group_get_val sc group_fields f g
        ≡ (if is_listed group_fields f then group_value_at v f else find_fn row_scan fs f)
  unfolding group_get_val
  get_val_lem v fs f e k = rw (group_get_val, e, k, find_fn-row_scan sc fs f) refl
