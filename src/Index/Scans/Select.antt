-- ===== src/Index/Scans/Select.antt =====
-- The rows of a selection through an index: src/libs/dbcore/index/scan/index_select_scan.h.
use myc_db.Prelude.{
  ◌≡◌, refl, ap, subst, Bool, true, false, List, [], ◌∷◌, Option, none, some, map, cons_inj, ok,
  Text, some_inj, ◌∙◌, List-cases, inl, inr,
}
use myc_db.Query.Constant.{Constant}
use myc_db.Record.Schema.{RecordId}
use myc_db.Scan.{UpdateScan}
use myc_db.Scan.Contract.{Row, Represents}
use myc_db.Scan.Passes.{Passes}
use myc_db.Index.Contract.{Index, Answers, Holds}
use myc_db.Index.Scans.{index_select_next, index_select_scan}

module _ {T S : Type 0} (u : UpdateScan T) (x : Index S) (val : Constant)
    (IsKey : Constant → Type 0) (rids : Constant → List RecordId) (fields : Text → Bool)
    (row : RecordId → Row) (a : Answers x IsKey rids) (b : Holds u fields row) where
  abbrev Both : T × S → Type 0
  Both p = b.IsOpen p.0 × a.IsUsable p.1

  -- The index stands on a record to which the table has been moved.
  record Standing (p : T × S) (c : Option Row) (out : List Row) : Type 0 where
    found : Option RecordId
    ahead : List RecordId
    on_index : a.IsStanding p.1 found ahead
    opened : b.IsOpen p.0
    coming : map row ahead ≡ out
    shown : (r : Row) (f : Text) → c ≡ some r → u.scan.get_val f p.0 ≡ r f

  next_stop :
      (t : T) (s : S) (c : Option RecordId)
      → a.IsStanding s c []
      → index_select_next u x val (t, s) ≡ (ok false, (t, (x.next s).1))
  unfolding index_select_next
  next_stop t s c h = rw (a.stop s c h).0 refl

  next_step :
      (t : T) (s : S) (c : Option RecordId) (r : RecordId) (rs : List RecordId)
      → a.IsStanding s c (r ∷ rs)
      → b.IsOpen t
      → index_select_next u x val (t, s)
        ≡ (ok true, ((u.move_to_rid r t).1, (x.get_data_rid (x.next s).1).1))
  unfolding index_select_next
  next_step t s c r rs h o =
      let (more, on) = a.step s c r rs h in rw (more, (a.rid _ r rs on).0, (b.move t r o).0) refl

  stop :
      (p : T × S) (c : Option Row) (h : Standing p c [])
      → ((index_select_next u x val p).0 ≡ ok false) × Both (index_select_next u x val p).1
  stop (t, s) c h = elim (List-cases h.ahead) [
    | inl e ↦
        let on = subst (a.IsStanding s h.found) e h.on_index in
        rw (next_stop t s h.found on) (refl, (h.opened, (a.stop s h.found on).1))
    | inr (r, rs, e) ↦ let k = rw e at h.coming in cc
  ]

  step :
      (p : T × S) (c : Option Row) (r : Row) (out : List Row) (h : Standing p c (r ∷ out))
      → ((index_select_next u x val p).0 ≡ ok true)
        × Standing (index_select_next u x val p).1 (some r) out
  step (t, s) c r out h = elim (List-cases h.ahead) [
    | inl e ↦ let k = rw e at h.coming in cc
    | inr (q, rs, e) ↦
        let on = subst (a.IsStanding s h.found) e h.on_index in
        let (first, rest) = cons_inj (rw e at h.coming) in
        let here = (b.move t q h.opened).1 in
        rw (next_step t s h.found q rs on h.opened) (
          refl,
          record {
            found = some q;
            ahead = rs;
            on_index = (a.rid _ q rs (a.step s h.found q rs on).1).1;
            opened = b.open_at _ q here;
            coming = rest;
            shown = λ r' f k. b.value _ q f here ∙ ap (λ (z : Row). z f) (first ∙ some_inj k);
          },
        )
  ]

-- The places of a selection through an index, over those of the table and the index.
pub index_select_scan-Represents :
    {T S : Type 0} (u : UpdateScan T) (x : Index S) (val : Constant) (IsKey : Constant → Type 0)
    (rids : Constant → List RecordId) (fields : Text → Bool) (row : RecordId → Row)
    → Answers x IsKey rids
    → Holds u fields row
    → IsKey val
    → Represents (index_select_scan u x val) fields (map row (rids val))
unfolding index_select_scan
index_select_scan-Represents u x val IsKey rids fields row a b k = record {
  IsUsable = Both u x val IsKey rids fields row a b;
  IsStanding = Standing u x val IsKey rids fields row a b;
  usable = λ p c out h. (h.opened, a.usable p.1 h.found h.ahead h.on_index);
  start = λ p h.
      let (done, on) = a.start p.1 val k h.1 in
      (
        done,
        record {
          found = none;
          ahead = rids val;
          on_index = on;
          opened = h.0;
          coming = refl;
          shown = λ r f e. cc;
        },
      );
  stop = stop u x val IsKey rids fields row a b;
  step = step u x val IsKey rids fields row a b;
  value = λ p r out f h. h.shown r f refl;
  names = λ p f h. b.names p.0 f h.0;
}
