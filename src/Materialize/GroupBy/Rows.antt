-- ===== src/Materialize/GroupBy/Rows.antt =====
-- The rows of a scan of groups: src/libs/dbcore/materialize/group_by_scan.h.
use myc_db.Prelude.{
  ℕ, zero, suc, ◌≤◌, ◌<◌, ◌≡◌, refl, sym, fun_ext, subst, ap, ◌∙◌, Bool, true, false, List, [], ◌∷◌,
  Option, none, some, arith, length, map, cons_inj, if◌then◌else◌, ok, Text, continue, some_inj,
}
use myc_db.Scan.{Scan}
use myc_db.Scan.Passes.{Passes}
use myc_db.Scan.Contract.{Row, Represents}
use myc_db.Scan.Project.{is_listed}
use myc_db.Materialize.GroupBy.{
  GroupValue, make_group_value, AggrFn, fn_first, fn_next, each_fn, has_fn, GroupByScan,
  group_first, collect, group_next, group_get_val, group_has_field, group_by_scan,
}
use myc_db.Materialize.GroupBy.Fresh.{
  row_scan, reset, reset-fn_first, map-reset-each_fn, each_fn-map-reset, fn_first-row_scan,
  map-reset_twice, has_fn-map-reset, fn_next-row_scan,
}
use myc_db.Materialize.GroupBy.Groups.{
  first_fns, next_fns, group_row, groups, rows_of, Fits, same, other, AllFit, rows, last_fns,
  later_rows, rows_of-groups_from, last_fns-same, last_fns-other, later_rows-same, later_rows-other,
  map-reset-last_fns,
}
use myc_db.Materialize.GroupBy.Steps.{
  collect_stop, collect_other, collect_same, ended, next_over, in_group, take_group_lem, next_group,
  get_val_lem,
}

module _ {S : Type 0} (sc : Scan S) (group_fields : List Text) (fresh : List AggrFn)
    (key : Row → GroupValue) (alike : Row → Row → Bool) (fields : Text → Bool) (all_rows : List Row)
    (base : Represents sc fields all_rows) (rounds : ℕ) where
  -- The scan below: on the first row of the next group, or behind its last row.
  data Place : S → Bool → List Row → Type 0 where
    at_row :
        (s : S) (q : Row) (rs out : List Row)
        → base.IsStanding s (some q) rs
        → make_group_value q group_fields ≡ ok (key q)
        → (each_fn (fn_first row_scan q) fresh).0 ≡ ok tt
        → Fits group_fields fresh key alike q (first_fns group_fields fresh key alike q) rs
        → length rs < rounds
        → out
          ≡ group_row group_fields fresh key alike (key q) (
              last_fns group_fields fresh key alike q (first_fns group_fields fresh key alike q) rs)
            ∷ later_rows group_fields fresh key alike q
                (first_fns group_fields fresh key alike q)
                rs
        → Place s true out
    at_end : (s : S) → base.IsUsable s → Place s false []

  record After (g h : GroupByScan S) (fs : List AggrFn) (out : List Row) : Type 0 where
    group : h.group_val ≡ g.group_val
    fns : h.aggr_funcs ≡ fs
    place : Place h.base h.more_groups out

  same_value :
      (s : S) (r : Row) (rs : List Row) → base.IsStanding s (some r) rs → (λ f. sc.get_val f s) ≡ r
  same_value s r rs h = fun_ext (λ f. base.value s r rs f h)

  read_value :
      (s : S) (r : Row) (rs : List Row) (v : GroupValue)
      → base.IsStanding s (some r) rs
      → make_group_value r group_fields ≡ ok v
      → make_group_value (λ f. sc.get_val f s) group_fields ≡ ok v
  read_value s r rs v h e =
      ap (λ (x : Row). make_group_value x group_fields) (same_value s r rs h) ∙ e

  collect-After :
      (n : ℕ) (g : GroupByScan S) (c : Option Row) (q : Row) (rs : List Row)
      → base.IsStanding g.base c rs
      → Fits group_fields fresh key alike q g.aggr_funcs rs
      → length rs < n
      → n ≤ rounds
      → ((collect sc group_fields (key q) n g).0 ≡ ok tt)
        × After g
            (collect sc group_fields (key q) n g).1
            (last_fns group_fields fresh key alike q g.aggr_funcs rs)
            (later_rows group_fields fresh key alike q g.aggr_funcs rs)
  collect-After zero g c q rs h f l m = absurd (omega arith)
  collect-After (suc n) g c q [] h f l m =
      let (none_left, usable) = base.stop g.base c h in
      rw (collect_stop sc group_fields (key q) n g none_left)
        (refl, record { group = refl; fns = refl; place = at_end _ usable })
  collect-After (suc n) g c q (r ∷ rs) h (same _ _ fs _ k e a d f) l m =
      let (more, on) = base.step g.base c r rs h in
      let fs' = next_fns group_fields fresh key alike g.aggr_funcs r in
      let t = (sc.next g.base).1 in
      let g' = record g { base = t; aggr_funcs = fs'; more_groups = true } in
      let taken : each_fn (fn_next sc t) g.aggr_funcs ≡ (ok tt, fs') =
        ap (λ x. each_fn x g.aggr_funcs) (fn_next-row_scan sc t r (same_value t r rs on))
        ∙ ended _ d in
      rw
        (
          collect_same sc group_fields (key q) n g (key r) more (read_value t r rs _ on k) fs' e
              taken,
          last_fns-same group_fields fresh key alike q r g.aggr_funcs rs a,
          later_rows-same group_fields fresh key alike q r g.aggr_funcs rs a,
        )
        (let (done, z) = collect-After n g' (some r) q rs on f (omega arith) (omega arith) in
          (done, record { group = z.group; fns = z.fns; place = z.place }))
  collect-After (suc n) g c q (r ∷ rs) h (other _ _ fs _ k e a d f) l m =
      let (more, on) = base.step g.base c r rs h in
      rw (collect_other sc group_fields (key q) n g (key r) more (read_value _ r rs _ on k) e) (
        refl,
        record {
          group = refl;
          fns = sym (last_fns-other group_fields fresh key alike q r g.aggr_funcs rs a);
          place =
              at_row _ r rs _ on k d f (omega arith)
                (later_rows-other group_fields fresh key alike q r g.aggr_funcs rs a);
        },
      )

  -- The scan of groups: `c` is the row it shows, `out` are the rows to come.
  record Standing (g : GroupByScan S) (c : Option Row) (out : List Row) : Type 0 where
    below : Place g.base g.more_groups out
    resets : map reset g.aggr_funcs ≡ fresh
    shown : (r : Row) (f : Text) → c ≡ some r → group_get_val sc group_fields f g ≡ r f

  record IsOpen (g : GroupByScan S) : Type 0 where
    usable : base.IsUsable g.base
    resets : map reset g.aggr_funcs ≡ fresh

  Place-IsUsable : (s : S) (b : Bool) (out : List Row) → Place s b out → base.IsUsable s
  Place-IsUsable s _ out (at_row _ q rs _ on k d f l e) = base.usable s (some q) rs on
  Place-IsUsable s _ _ (at_end _ u) = u

  begun :
      (s : S) (rs : List Row)
      → base.IsStanding s none rs
      → AllFit group_fields fresh key alike rs
      → length rs < rounds
      → (b : Bool) × ((sc.next s).0 ≡ ok b)
        × Place
            (sc.next s).1
            b
            (rows_of group_fields fresh key alike (groups group_fields fresh key alike rs))
  begun s [] h a l = let (none_left, u) = base.stop s none h in (false, none_left, at_end _ u)
  begun s (q ∷ rs) h (rows _ _ k d f) l =
      let (more, on) = base.step s none q rs h in
      (
        true,
        more,
        at_row _ q rs _ on k d f (omega arith)
            (rows_of-groups_from group_fields fresh key alike q [] rs),
      )

  start :
      (g : GroupByScan S)
      → IsOpen g
      → AllFit group_fields fresh key alike all_rows
      → length all_rows < rounds
      → ((group_first sc group_fields g).0 ≡ ok tt)
        × Standing
            (group_first sc group_fields g).1
            none
            (rows_of group_fields fresh key alike (groups group_fields fresh key alike all_rows))
  unfolding group_first
  start g u a l =
      let (first, on) = base.start g.base u.usable in
      let (b, e, place) = begun (sc.before_first g.base).1 all_rows on a l in
      rw (group_first, first, continue, e)
        (refl, record { below = place; resets = u.resets; shown = λ r f k. cc })

  closed : (s : S) (b : Bool) → Place s b [] → (b ≡ false) × base.IsUsable s
  closed s _ (at_row _ q rs _ on k d f l e) = cc
  closed s _ (at_end _ u) = (refl, u)

  stop :
      (m : ℕ) (g : GroupByScan S) (c : Option Row)
      → Standing g c []
      → ((group_next sc group_fields m g).0 ≡ ok false) × IsOpen (group_next sc group_fields m g).1
  stop m g c h =
      let (e, u) = closed g.base g.more_groups h.below in
      rw (next_over sc group_fields m g e) (refl, record { usable = u; resets = h.resets })

  -- The group that the scan below stands before.
  step_row :
      (g : GroupByScan S) (b : Bool) (r : Row) (out : List Row)
      → Place g.base b (r ∷ out)
      → g.more_groups ≡ b
      → map reset g.aggr_funcs ≡ fresh
      → ((group_next sc group_fields rounds g).0 ≡ ok true)
        × Standing (group_next sc group_fields rounds g).1 (some r) out
  step_row g _ r out (at_row s q rs _ on k d f l e) more resets =
      let fs = first_fns group_fields fresh key alike q in
      let taken : each_fn (fn_first sc g.base) g.aggr_funcs ≡ (ok tt, fs) =
        ap (λ x. each_fn x g.aggr_funcs) (fn_first-row_scan sc g.base q (same_value g.base q rs on))
        ∙ each_fn-map-reset q g.aggr_funcs (rw resets d)
        ∙ ap (each_fn (fn_first row_scan q)) resets
        ∙ ended _ d in
      let g' = in_group sc group_fields rounds g fs (key q) in
      let (done, z) = collect-After rounds g' (some q) q rs on f l (omega arith) in
      let (same_row, same_out) = cons_inj e in
      rw
        (
          next_group sc group_fields rounds g more,
          take_group_lem sc group_fields rounds g fs (key q) taken (read_value g.base q rs _ on k)
              done,
        )
        (
          refl,
          record {
            below = subst (Place _ _) (sym same_out) z.place;
            resets =
                ap (map reset) z.fns
                ∙ map-reset-last_fns group_fields fresh key alike q fs rs
                ∙ map-reset-each_fn (fn_first row_scan q) fresh (reset-fn_first q)
                ∙ ap (map reset) (sym resets)
                ∙ map-reset_twice g.aggr_funcs
                ∙ resets;
            shown = λ r' f' h.
                get_val_lem sc group_fields rounds _ (key q) _ f' z.group z.fns
                ∙ ap (λ (x : Row). x f') (sym same_row ∙ some_inj h);
          },
        )

  step :
      (g : GroupByScan S) (c : Option Row) (r : Row) (out : List Row)
      → Standing g c (r ∷ out)
      → ((group_next sc group_fields rounds g).0 ≡ ok true)
        × Standing (group_next sc group_fields rounds g).1 (some r) out
  step g c r out h = step_row g g.more_groups r out h.below refl h.resets

-- The places of a scan of groups, over those of the scan below.
pub group_by_scan-Represents :
    {S : Type 0} (sc : Scan S) (group_fields : List Text) (fresh : List AggrFn)
    (key : Row → GroupValue) (alike : Row → Row → Bool) (fields : Text → Bool) (all_rows : List Row)
    (rounds : ℕ)
    → Represents sc fields all_rows
    → AllFit group_fields fresh key alike all_rows
    → length all_rows < rounds
    → Represents
        (group_by_scan sc group_fields rounds)
        (λ f. if is_listed group_fields f then true else has_fn row_scan fresh f)
        (rows_of group_fields fresh key alike (groups group_fields fresh key alike all_rows))
unfolding group_by_scan group_has_field
group_by_scan-Represents sc group_fields fresh key alike fields all_rows rounds base a l = record {
  IsUsable = IsOpen sc group_fields fresh key alike fields all_rows base rounds;
  IsStanding = Standing sc group_fields fresh key alike fields all_rows base rounds;
  usable = λ g c out h. record {
    usable =
        Place-IsUsable sc group_fields fresh key alike fields all_rows base rounds _ _ out h.below;
    resets = h.resets;
  };
  start = λ g h. start sc group_fields fresh key alike fields all_rows base rounds g h a l;
  stop = λ g c h. stop sc group_fields fresh key alike fields all_rows base rounds rounds g c h;
  step =
      λ g c r out h. step sc group_fields fresh key alike fields all_rows base rounds g c r out h;
  value = λ g r out f h. h.shown r f refl;
  names = λ g f h.
      ap (λ b. ok (if is_listed group_fields f then true else b))
        (has_fn-map-reset sc g.aggr_funcs f ∙ ap (λ x. has_fn row_scan x f) h.resets);
}
