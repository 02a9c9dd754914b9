-- ===== src/Scan/Select/Rows.antt =====
-- The rows of a selection are those that satisfy its predicate: src/libs/dbcore/scan/select_scan.h.
use myc_db.Prelude.{
  ℕ, zero, suc, ◌≤◌, ◌<◌, ◌≡◌, refl, fun_ext, subst, ap, ◌∙◌, Bool, true, false, List, [], ◌∷◌,
  Option, some, arith, length, Bool-cases, cons_inj, inl, inr, if◌then◌else◌, ok, Text,
}
use myc_db.Query.Predicate.{Predicate, holds}
use myc_db.Scan.{UpdateScan}
use myc_db.Scan.Contract.{Row, Represents}
use myc_db.Scan.Passes.{Passes}
use myc_db.Scan.Select.{on_row, select_next, select_scan}

-- The predicate has a value on each of the rows.
abbrev pub AllTested : Predicate → (Row → Bool) → List Row → Type 0
AllTested pred test [] = Unit {0}
AllTested pred test (r ∷ rs) = (holds r pred ≡ ok (test r)) × AllTested pred test rs

abbrev pub keep_rows : (Row → Bool) → List Row → List Row
keep_rows test [] = []
keep_rows test (r ∷ rs) = let rest = keep_rows test rs in if test r then r ∷ rest else rest

module _ {S : Type 0} (u : UpdateScan S) (pred : Predicate) (test : Row → Bool)
    (fields : Text → Bool) (rows : List Row) (base : Represents u.scan fields rows) where
  -- Where the selection stands when the scan below still has the rows `rs`.
  record Selecting (rounds : ℕ) (s : S) (c : Option Row) (out : List Row) : Type 0 where
    ahead : List Row
    below : base.IsStanding s c ahead
    kept : keep_rows test ahead ≡ out
    tested : AllTested pred test ahead
    enough : length ahead < rounds

  same_value :
      (s : S) (r : Row) (rs : List Row)
      → base.IsStanding s (some r) rs
      → (λ f. u.scan.get_val f s) ≡ r
  same_value s r rs h = fun_ext (λ f. base.value s r rs f h)

  -- One round of the loop, on a row where the predicate has a value.
  round :
      (n : ℕ) (s : S) (c : Option Row) (r : Row) (rs : List Row) (b : Bool)
      → base.IsStanding s c (r ∷ rs)
      → holds r pred ≡ ok b
      → select_next u pred (suc n) s ≡ on_row (select_next u pred n) (ok b) (u.scan.next s).1
  unfolding select_next
  round n s c r rs b h e =
      let (more, on) = base.step s c r rs h in
      rw more (
        ap (λ v. on_row (select_next u pred n) v (u.scan.next s).1)
          (ap (λ get. holds get pred) (same_value (u.scan.next s).1 r rs on) ∙ e))

  -- No later row satisfies the predicate.
  next_stop :
      (n : ℕ) (s : S) (c : Option Row) (rs : List Row)
      → base.IsStanding s c rs
      → AllTested pred test rs
      → length rs < n
      → keep_rows test rs ≡ []
      → ((select_next u pred n s).0 ≡ ok false) × base.IsUsable (select_next u pred n s).1
  unfolding on_row
  next_stop zero s c rs h t l k = absurd (omega arith)
  next_stop (suc n) s c [] h t l k =
      unfold select_next in (let (e, d) = base.stop s c h in rw e (refl, d))
  next_stop (suc n) s c (r ∷ rs) h (now, later) l k = elim (Bool-cases (test r)) [
    | inl e ↦ let k' = rw e at k in cc
    | inr e ↦
        rw (round n s c r rs (test r) h now, e)
          (next_stop n (u.scan.next s).1 (some r) rs (base.step s c r rs h).1 later (omega arith)
            (rw e at k))
  ]

  -- The first row that satisfies the predicate is the next one.
  next_step :
      (rounds n : ℕ) (s : S) (c : Option Row) (rs : List Row) (q : Row) (out : List Row)
      → base.IsStanding s c rs
      → AllTested pred test rs
      → length rs < n
      → n ≤ rounds
      → keep_rows test rs ≡ q ∷ out
      → ((select_next u pred n s).0 ≡ ok true)
        × Selecting rounds (select_next u pred n s).1 (some q) out
  unfolding on_row
  next_step rounds zero s c rs q out h t l m k = absurd (omega arith)
  next_step rounds (suc n) s c [] q out h t l m k = cc
  next_step rounds (suc n) s c (r ∷ rs) q out h (now, later) l m k = elim (Bool-cases (test r)) [
    | inl e ↦
        let (more, on) = base.step s c r rs h in
        let (same, rest) = cons_inj (rw e at k) in
        rw (round n s c r rs (test r) h now, e)
          (
            refl,
            record {
              ahead = rs;
              below = subst (λ x. base.IsStanding (u.scan.next s).1 (some x) rs) same on;
              kept = rest;
              tested = later;
              enough = omega arith;
            },
          )
    | inr e ↦
        rw (round n s c r rs (test r) h now, e)
          (next_step rounds n (u.scan.next s).1 (some r) rs q out (base.step s c r rs h).1 later
            (omega arith) (omega arith) (rw e at k))
  ]

-- The places of a selection, over those of the scan below.
pub select_scan-Represents :
    {S : Type 0} (u : UpdateScan S) (pred : Predicate) (test : Row → Bool) (fields : Text → Bool)
    (rows : List Row) (rounds : ℕ)
    → Represents u.scan fields rows
    → AllTested pred test rows
    → length rows < rounds
    → Represents (select_scan u pred rounds).scan fields (keep_rows test rows)
unfolding select_scan
select_scan-Represents u pred test fields rows rounds base t l = record {
  IsUsable = base.IsUsable;
  IsStanding = Selecting u pred test fields rows base rounds;
  usable = λ s c out h. base.usable s c h.ahead h.below;
  start = λ s h.
      let (done, on) = base.start s h in
      (done, record { ahead = rows; below = on; kept = refl; tested = t; enough = l });
  stop = λ s c h.
      next_stop u pred test fields rows base rounds s c h.ahead h.below h.tested h.enough h.kept;
  step = λ s c r out h.
      next_step u pred test fields rows base rounds rounds s c h.ahead r out h.below h.tested
        h.enough (omega arith) h.kept;
  value = λ s r out f h. base.value s r h.ahead f h.below;
  names = base.names;
}
