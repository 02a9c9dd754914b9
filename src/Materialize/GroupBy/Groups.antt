-- ===== src/Materialize/GroupBy/Groups.antt =====
-- What the rows of a scan of groups should be: src/libs/dbcore/materialize/group_by_scan.h.
use myc_db.Prelude.{
  ◌≡◌, refl, ap, ◌∙◌, Bool, true, false, List, [], ◌∷◌, map, Bool-cases, inl, inr, if◌then◌else◌,
  ok, Text, ◌++◌,
}
use myc_db.Scan.Contract.{Row}
use myc_db.Scan.Project.{is_listed}
use myc_db.Materialize.GroupBy.{
  GroupValue, make_group_value, group_value_at, same_group, AggrFn, fn_first, fn_next, each_fn,
  find_fn,
}
use myc_db.Materialize.GroupBy.Fresh.{row_scan, reset, reset-fn_next, map-reset-each_fn}

-- What a scan of groups should give. `fresh` are the functions before any row, `key` the group's
-- values of a row, `alike` whether two rows belong together.
module _ (group_fields : List Text) (fresh : List AggrFn) (key : Row → GroupValue)
    (alike : Row → Row → Bool) where
  abbrev pub first_fns : Row → List AggrFn
  first_fns r = (each_fn (fn_first row_scan r) fresh).1

  abbrev pub next_fns : List AggrFn → Row → List AggrFn
  next_fns fs r = (each_fn (fn_next row_scan r) fs).1

  abbrev pub fold_rows : List AggrFn → List Row → List AggrFn
  fold_rows fs [] = fs
  fold_rows fs (r ∷ rs) = fold_rows (next_fns fs r) rs

  abbrev pub group_row : GroupValue → List AggrFn → Row
  group_row v fs f = if is_listed group_fields f then group_value_at v f else find_fn row_scan fs f

  -- The groups: each a first row, and the rows directly behind it that are alike to the first.
  abbrev pub groups_from : Row → List Row → List Row → List (Row × List Row)
  groups_from q ms [] = (q, ms) ∷ []
  groups_from q ms (r ∷ rs) = elim (alike q r) [
    | true ↦ groups_from q (ms ++ r ∷ []) rs
    | false ↦ (q, ms) ∷ groups_from r [] rs
  ]

  abbrev pub groups : List Row → List (Row × List Row)
  groups [] = []
  groups (r ∷ rs) = groups_from r [] rs

  abbrev pub rows_of : List (Row × List Row) → List Row
  rows_of [] = []
  rows_of ((q, ms) ∷ gs) = group_row (key q) (fold_rows (first_fns q) ms) ∷ rows_of gs

  -- On the rows behind `q`, where the functions have come to `fs`, reading, comparing and aggregating
  -- go well.
  pub data Fits : Row → List AggrFn → List Row → Type 0 where
    over : (q : Row) (fs : List AggrFn) → Fits q fs []
    same :
        (q r : Row) (fs : List AggrFn) (rs : List Row)
        → make_group_value r group_fields ≡ ok (key r)
        → same_group (key q) (key r) ≡ ok true
        → alike q r ≡ true
        → (each_fn (fn_next row_scan r) fs).0 ≡ ok tt
        → Fits q (next_fns fs r) rs
        → Fits q fs (r ∷ rs)
    other :
        (q r : Row) (fs : List AggrFn) (rs : List Row)
        → make_group_value r group_fields ≡ ok (key r)
        → same_group (key q) (key r) ≡ ok false
        → alike q r ≡ false
        → (each_fn (fn_first row_scan r) fresh).0 ≡ ok tt
        → Fits r (first_fns r) rs
        → Fits q fs (r ∷ rs)

  pub data AllFit : List Row → Type 0 where
    no_rows : AllFit []
    rows :
        (q : Row) (rs : List Row)
        → make_group_value q group_fields ≡ ok (key q)
        → (each_fn (fn_first row_scan q) fresh).0 ≡ ok tt
        → Fits q (first_fns q) rs
        → AllFit (q ∷ rs)

  -- The same rows with the functions carried along: what they are after the first group, and the
  -- rows of the others.
  abbrev pub last_fns : Row → List AggrFn → List Row → List AggrFn
  last_fns q fs [] = fs
  last_fns q fs (r ∷ rs) = elim (alike q r) [ true ↦ last_fns q (next_fns fs r) rs | false ↦ fs ]

  abbrev pub later_rows : Row → List AggrFn → List Row → List Row
  later_rows q fs [] = []
  later_rows q fs (r ∷ rs) = elim (alike q r) [
    | true ↦ later_rows q (next_fns fs r) rs
    | false ↦ group_row (key r) (last_fns r (first_fns r) rs) ∷ later_rows r (first_fns r) rs
  ]

  fold_rows-append :
      (fs : List AggrFn) (ms : List Row) (r : Row)
      → fold_rows fs (ms ++ r ∷ []) ≡ next_fns (fold_rows fs ms) r
  fold_rows-append fs [] r = refl
  fold_rows-append fs (m ∷ ms) r = fold_rows-append (next_fns fs m) ms r

  pub rows_of-groups_from :
      (q : Row) (ms rs : List Row)
      → rows_of (groups_from q ms rs)
        ≡ group_row (key q) (last_fns q (fold_rows (first_fns q) ms) rs)
          ∷ later_rows q (fold_rows (first_fns q) ms) rs
  rows_of-groups_from q ms [] = refl
  rows_of-groups_from q ms (r ∷ rs) =
      elim (alike q r)
        as (λ c.
          rows_of (elim c [
            | true ↦ groups_from q (ms ++ r ∷ []) rs
            | false ↦ (q, ms) ∷ groups_from r [] rs
          ])
          ≡ group_row (key q) (elim c [
            | true ↦ last_fns q (next_fns (fold_rows (first_fns q) ms) r) rs
            | false ↦ fold_rows (first_fns q) ms
          ])
            ∷ elim c [
              | true ↦ later_rows q (next_fns (fold_rows (first_fns q) ms) r) rs
              | false ↦
                  group_row (key r) (last_fns r (first_fns r) rs) ∷ later_rows r (first_fns r) rs
            ]) [
              | true ↦
                  rw (← fold_rows-append (first_fns q) ms r)
                    (rows_of-groups_from q (ms ++ r ∷ []) rs)
              | false ↦
                  ap (λ x. group_row (key q) (fold_rows (first_fns q) ms) ∷ x)
                    (rows_of-groups_from r [] rs)
            ]

  module _ (q r : Row) (fs : List AggrFn) (rs : List Row) where
    pub last_fns-same : alike q r ≡ true → last_fns q fs (r ∷ rs) ≡ last_fns q (next_fns fs r) rs
    last_fns-same e = ap (λ c. elim c [ true ↦ last_fns q (next_fns fs r) rs | false ↦ fs ]) e

    pub last_fns-other : alike q r ≡ false → last_fns q fs (r ∷ rs) ≡ fs
    last_fns-other e = ap (λ c. elim c [ true ↦ last_fns q (next_fns fs r) rs | false ↦ fs ]) e

    abbrev later_by : Bool → List Row
    later_by true = later_rows q (next_fns fs r) rs
    later_by false = group_row (key r) (last_fns r (first_fns r) rs) ∷ later_rows r (first_fns r) rs

    pub later_rows-same :
        alike q r ≡ true → later_rows q fs (r ∷ rs) ≡ later_rows q (next_fns fs r) rs
    later_rows-same e = ap later_by e

    pub later_rows-other :
        alike q r ≡ false
        → later_rows q fs (r ∷ rs)
          ≡ group_row (key r) (last_fns r (first_fns r) rs) ∷ later_rows r (first_fns r) rs
    later_rows-other e = ap later_by e

  -- A group leaves the functions the same but for what they have computed.
  pub map-reset-last_fns :
      (q : Row) (fs : List AggrFn) (rs : List Row) → map reset (last_fns q fs rs) ≡ map reset fs
  map-reset-last_fns q fs [] = refl
  map-reset-last_fns q fs (r ∷ rs) = elim (Bool-cases (alike q r)) [
    | inl e ↦
        ap (map reset) (last_fns-same q r fs rs e)
        ∙ map-reset-last_fns q (next_fns fs r) rs
        ∙ map-reset-each_fn (fn_next row_scan r) fs (reset-fn_next r)
    | inr e ↦ ap (map reset) (last_fns-other q r fs rs e)
  ]
