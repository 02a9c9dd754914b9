-- ===== src/Scan/Project/Rows.antt =====
-- A projection goes through the rows of the scan below, cut down to its fields:
-- src/libs/dbcore/scan/project_scan.h.
use myc_db.Prelude.{
  ◌≡◌, refl, Bool, true, false, List, [], ◌∷◌, Option, none, some, if◌then◌else◌, runtime, ok, err,
  Text, map, cons_inj, sym, ap, ◌∙◌, some_inj,
}
use myc_db.Scan.{Scan}
use myc_db.Scan.Contract.{Row, Represents}
use myc_db.Scan.Project.{is_listed, guarded_get, project_scan}

abbrev pub cut_row : List Text → Row → Row
cut_row l r f = if is_listed l f then r f else err runtime

cut_option : List Text → Option Row → Option Row
cut_option l none = none
cut_option l (some r) = some (cut_row l r)

module _ {S : Type 0} (sc : Scan S) (l : List Text) (fields : Text → Bool) (rows : List Row)
    (base : Represents sc fields rows) where
  record Cutting (s : S) (c : Option Row) (out : List Row) : Type 0 where
    under : Option Row
    rs : List Row
    below : base.IsStanding s under rs
    current : c ≡ cut_option l under
    ahead : map (cut_row l) rs ≡ out

  project-stop :
      (s : S) (under : Option Row) (rs : List Row)
      → base.IsStanding s under rs
      → map (cut_row l) rs ≡ []
      → ((sc.next s).0 ≡ ok false) × base.IsUsable (sc.next s).1
  project-stop s under [] h e = base.stop s under h
  project-stop s under (r ∷ rs) h e = cc

  project-step :
      (s : S) (under : Option Row) (rs : List Row) (q : Row) (out : List Row)
      → base.IsStanding s under rs
      → map (cut_row l) rs ≡ q ∷ out
      → ((sc.next s).0 ≡ ok true) × Cutting (sc.next s).1 (some q) out
  unfolding cut_option
  project-step s under [] q out h e = cc
  project-step s under (r ∷ rs) q out h e =
      let (same, rest) = cons_inj e in
      let (more, on) = base.step s under r rs h in
      (
        more,
        record { under = some r; rs = rs; below = on; current = ap some (sym same); ahead = rest },
      )

  project-value :
      (s : S) (under : Option Row) (rs : List Row) (q : Row) (f : Text)
      → base.IsStanding s under rs
      → some q ≡ cut_option l under
      → guarded_get l sc.get_val f s ≡ q f
  unfolding cut_option
  project-value s none rs q f h e = cc
  project-value s (some r) rs q f h e =
      ap (λ v. if is_listed l f then v else err runtime) (base.value s r rs f h)
      ∙ ap (λ row. row f) (sym (some_inj e))

-- A projection goes through the rows of the scan below in their order; a field of the list has its
-- value, and any other cannot be read.
pub project_scan-Represents :
    {S : Type 0} (sc : Scan S) (l : List Text) (fields : Text → Bool) (rows : List Row)
    → Represents sc fields rows
    → Represents (project_scan sc l) (is_listed l) (map (cut_row l) rows)
unfolding project_scan cut_option
project_scan-Represents sc l fields rows base = record {
  IsUsable = base.IsUsable;
  IsStanding = Cutting sc l fields rows base;
  usable = λ s c out h. base.usable s h.under h.rs h.below;
  start = λ s h.
      let (done, on) = base.start s h in
      (done, record { under = none; rs = rows; below = on; current = refl; ahead = refl });
  stop = λ s c h. project-stop sc l fields rows base s h.under h.rs h.below h.ahead;
  step = λ s c q out h. project-step sc l fields rows base s h.under h.rs q out h.below h.ahead;
  value = λ s q out f h. project-value sc l fields rows base s h.under h.rs q f h.below h.current;
  names = λ s f h. refl;
}
