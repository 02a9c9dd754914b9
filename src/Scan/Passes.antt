-- ===== src/Scan/Passes.antt =====
-- What is seen of a scan from outside: the results of its calls, pass after pass.
use myc_db.Prelude.{
  ℕ, zero, suc, ◌≡◌, Bool, true, false, List, [], ◌∷◌, Option, none, some, ok, Text,
}
use myc_db.Scan.{Scan}
use myc_db.Scan.Contract.{Row, Represents, Visits}

-- The scan stands on the row: each field has its value, and it says which fields there are.
abbrev pub Shown : {S : Type 0} → Scan S → (Text → Bool) → Row → S → Type 0
Shown sc fields r s = (f : Text) → (sc.get_val f s ≡ r f) × (sc.has_field f s ≡ ok (fields f))

-- The calls of `next` from here on: true with each of the rows, in order, and then false. `Again` holds
-- after each call.
abbrev pub Gives : {S : Type 0} → Scan S → (Text → Bool) → (S → Type 0) → List Row → S → Type 0
Gives sc fields Again [] s = ((sc.next s).0 ≡ ok false) × Again (sc.next s).1
Gives sc fields Again (r ∷ rs) s =
    ((sc.next s).0 ≡ ok true)
    × Again (sc.next s).1
    × Shown sc fields r (sc.next s).1
    × Gives sc fields Again rs (sc.next s).1

-- So many times over, from any place: before_first returns, and next then gives these rows.
abbrev pub Passes : {S : Type 0} → Scan S → (Text → Bool) → List Row → ℕ → S → Type 0
Passes sc fields rows zero s = Unit {0}
Passes sc fields rows (suc n) s =
    ((sc.before_first s).0 ≡ ok tt)
    × Passes sc fields rows n (sc.before_first s).1
    × Gives sc fields (Passes sc fields rows n) rows (sc.before_first s).1

module _ {S : Type 0} (sc : Scan S) (fields : Text → Bool) (rows : List Row)
    (v : Visits sc fields rows) where
  gives :
      (Again : S → Type 0) (again : (s : S) → v.IsUsable s → Again s) (rs : List Row) (s : S)
      (c : Option Row)
      → v.IsStanding s c rs
      → Gives sc fields Again rs s
  gives Again again [] s c h = let (e, u) = v.stop s c h in (e, again _ u)
  gives Again again (r ∷ rs) s c h =
      let (e, on) = v.step s c r rs h in
      (
        e,
        again _ (v.usable _ (some r) rs on),
        (λ f. (v.value _ r rs f on, v.names _ r rs f on)),
        gives Again again rs _ (some r) on,
      )

  pub passes : (n : ℕ) (s : S) → v.IsUsable s → Passes sc fields rows n s
  passes zero s h = tt
  passes (suc n) s h =
      let (e, on) = v.start s h in
      (
        e,
        passes n _ (v.usable _ none rows on),
        gives (Passes sc fields rows n) (passes n) rows _ none on,
      )

-- A scan that knows its fields anywhere knows them on a row.
abbrev pub visits :
    {S : Type 0} {sc : Scan S} {fields : Text → Bool} {rows : List Row}
    → Represents sc fields rows
    → Visits sc fields rows
visits h = record {
  IsUsable = h.IsUsable;
  IsStanding = h.IsStanding;
  usable = h.usable;
  start = h.start;
  stop = h.stop;
  step = h.step;
  value = h.value;
  names = λ s r rs f k. h.names s f (h.usable s (some r) rs k);
}

pub Represents-Passes :
    {S : Type 0} (sc : Scan S) (fields : Text → Bool) (rows : List Row)
    (h : Represents sc fields rows) (n : ℕ) (s : S)
    → h.IsUsable s
    → Passes sc fields rows n s
Represents-Passes sc fields rows h n s u = passes sc fields rows (visits h) n s u
