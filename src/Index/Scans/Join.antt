-- ===== src/Index/Scans/Join.antt =====
-- The rows of a join through an index: src/libs/dbcore/index/scan/index_join_scan.h.
use myc_db.Prelude.{
  ℕ, zero, suc, ◌<◌, ◌≡◌, refl, sym, ap, Bool, true, false, ◌||◌, List, [], ◌∷◌, ◌++◌, Option, none,
  some, map, length, arith, cons_inj, if◌then◌else◌, Result, ok, Text, some_inj, ◌∙◌, continue,
  subst, ◌>>=◌,
}
use myc_db.Query.Constant.{Constant}
use myc_db.Record.Schema.{RecordId}
use myc_db.Scan.{Scan, UpdateScan}
use myc_db.Scan.Contract.{Row, Represents}
use myc_db.Scan.Passes.{Passes}
use myc_db.Index.Contract.{Index, Answers, Holds}
use myc_db.Index.Scans.{reset_index, index_join_first, index_join_next, index_join_scan}

-- A row of the table with one of the left scan: a field of both has the table's value.
abbrev pub join_row : (Text → Bool) → Row → Row → Row
join_row fields l r f = if fields f then r f else l f

-- Each row on the left with those of the table that the index has for its key.
abbrev pub joined :
    (Text → Bool)
    → (RecordId → Row)
    → (Constant → List RecordId)
    → (Row → Constant)
    → List Row
    → List Row
joined fields row rids key [] = []
joined fields row rids key (l ∷ ls) =
    map (λ r. join_row fields l (row r)) (rids (key l)) ++ joined fields row rids key ls

-- The rows have a value of the field that the index can be asked for.
abbrev pub AllKeyed : (Constant → Type 0) → Text → (Row → Constant) → List Row → Type 0
AllKeyed IsKey f key [] = Unit {0}
AllKeyed IsKey f key (l ∷ ls) = ((l f ≡ ok (key l)) × IsKey (key l)) × AllKeyed IsKey f key ls

both :
    {m n : Result Bool} {a b : Bool}
    → m ≡ ok a
    → n ≡ ok b
    → (m >>= λ c. if c then ok true else n) ≡ ok (a || b)
both {a = true} e k = rw e refl
both {a = false} e k = rw (e, k) refl

module _ {L T S : Type 0} (left : Scan L) (x : Index S) (join_field : Text) (u : UpdateScan T)
    (lf fields : Text → Bool) (lefts : List Row) (row : RecordId → Row) (IsKey : Constant → Type 0)
    (rids : Constant → List RecordId) (key : Row → Constant) (rounds : ℕ)
    (c : Represents left lf lefts) (a : Answers x IsKey rids) (b : Holds u fields row) where
  abbrev Usable : L × (T × S) → Type 0
  Usable p = c.IsUsable p.0 × b.IsOpen p.1.0 × a.IsUsable p.1.1

  record Standing (p : L × (T × S)) (q : Option Row) (out : List Row) : Type 0 where
    l : Row
    ls : List Row
    found : Option RecordId
    ahead : List RecordId
    on_left : c.IsStanding p.0 (some l) ls
    on_index : a.IsStanding p.1.1 found ahead
    opened : b.IsOpen p.1.0
    keyed : AllKeyed IsKey join_field key ls
    enough : length ls < rounds
    coming : map (λ r. join_row fields l (row r)) ahead ++ joined fields row rids key ls ≡ out
    shown :
        (r : Row) (f : Text)
        → q ≡ some r
        → (index_join_scan left x join_field u rounds).get_val f p ≡ r f

  -- What a call of `next` gives when the rows `out` are to come.
  data Next (r : Result Bool × (L × (T × S))) (out : List Row) : Type 0 where
    over : r.0 ≡ ok false → Usable r.1 → out ≡ [] → Next r out
    more :
        (q : Row) (rest : List Row)
        → r.0 ≡ ok true
        → Standing r.1 (some q) rest
        → out ≡ q ∷ rest
        → Next r out

  reset_lem :
      (p : L) (t : T) (s : S) (l : Row) (ls : List Row)
      → c.IsStanding p (some l) ls
      → (l join_field ≡ ok (key l)) × IsKey (key l)
      → a.IsUsable s
      → reset_index left x join_field u (p, (t, s))
        ≡ (ok tt, (p, (t, (x.before_first (key l) s).1)))
  unfolding reset_index
  reset_lem p t s l ls h k v =
      rw (c.value p l ls join_field h ∙ k.0, (a.start s (key l) k.1 v).0) refl

  hit :
      (n : ℕ) (p : L) (t : T) (s : S) (found : Option RecordId) (r : RecordId) (rs : List RecordId)
      → a.IsStanding s found (r ∷ rs)
      → b.IsOpen t
      → index_join_next left x join_field u (suc n) (p, (t, s))
        ≡ (ok true, (p, ((u.move_to_rid r t).1, (x.get_data_rid (x.next s).1).1)))
  unfolding index_join_next
  hit n p t s found r rs h o =
      let (e, on) = a.step s found r rs h in
      rw (index_join_next, e, continue, (a.rid _ r rs on).0, (b.move t r o).0) refl

  last :
      (n : ℕ) (p : L) (t : T) (s : S) (found : Option RecordId) (l : Row)
      → a.IsStanding s found []
      → c.IsStanding p (some l) []
      → index_join_next left x join_field u (suc n) (p, (t, s))
        ≡ (ok false, ((left.next p).1, (t, (x.next s).1)))
  unfolding index_join_next
  last n p t s found l h o =
      rw (index_join_next, (a.stop s found h).0, continue, (c.stop p (some l) o).0) refl

  again :
      (n : ℕ) (p : L) (t : T) (s s' : S) (found : Option RecordId) (l l' : Row) (ls : List Row)
      → a.IsStanding s found []
      → c.IsStanding p (some l) (l' ∷ ls)
      → reset_index left x join_field u ((left.next p).1, (t, (x.next s).1))
        ≡ (ok tt, ((left.next p).1, (t, s')))
      → index_join_next left x join_field u (suc n) (p, (t, s))
        ≡ index_join_next left x join_field u n ((left.next p).1, (t, s'))
  unfolding index_join_next
  again n p t s s' found l l' ls h o e =
      rw (index_join_next, (a.stop s found h).0, continue, (c.step p (some l) l' ls o).0, e) refl

  -- The value of a field where the scan stands on a row of the left scan and one of the table.
  shows :
      (p : L) (t : T) (s : S) (l : Row) (ls : List Row) (r : RecordId) (f : Text)
      → c.IsStanding p (some l) ls
      → b.IsAt t r
      → (index_join_scan left x join_field u rounds).get_val f (p, (t, s))
        ≡ join_row fields l (row r) f
  unfolding index_join_scan
  shows p t s l ls r f h o =
      rw (b.names t f (b.open_at t r o), b.value t r f o, c.value p l ls f h) refl

  next_lem :
      (n : ℕ) (p : L) (t : T) (s : S) (l : Row) (ls : List Row) (found : Option RecordId)
      (ahead : List RecordId)
      → c.IsStanding p (some l) ls
      → a.IsStanding s found ahead
      → b.IsOpen t
      → AllKeyed IsKey join_field key ls
      → length ls < n
      → length ls < rounds
      → Next
          (index_join_next left x join_field u n (p, (t, s)))
          (map (λ r. join_row fields l (row r)) ahead ++ joined fields row rids key ls)
  next_lem zero p t s l ls found ahead h k o v m e = absurd (omega arith)
  next_lem (suc n) p t s l ls found (r ∷ rs) h k o v m e =
      let here = (b.move t r o).1 in
      rw (hit n p t s found r rs k o) (
        more (join_row fields l (row r)) _ refl
          (record {
            l = l;
            ls = ls;
            found = some r;
            ahead = rs;
            on_left = h;
            on_index = (a.rid _ r rs (a.step s found r rs k).1).1;
            opened = b.open_at _ r here;
            keyed = v;
            enough = e;
            coming = refl;
            shown = λ r' f z. shows p _ _ l ls r f h here ∙ ap (λ (y : Row). y f) (some_inj z);
          })
          refl)
  next_lem (suc n) p t s l [] found [] h k o v m e =
      rw (last n p t s found l k h)
        (over refl ((c.stop p (some l) h).1, o, (a.stop s found k).1) refl)
  next_lem (suc n) p t s l (l' ∷ ls) found [] h k o (now, later) m e =
      let on = (c.step p (some l) l' ls h).1 in
      let usable = (a.stop s found k).1 in
      rw (again n p t s _ found l l' ls k h (reset_lem _ t _ l' ls on now usable)) (
        next_lem n _ t _ l' ls none (rids (key l')) on (a.start _ (key l') now.1 usable).1 o later
          (omega arith) (omega arith))

  stop :
      (p : L × (T × S)) (q : Option Row)
      → Standing p q []
      → ((index_join_next left x join_field u rounds p).0 ≡ ok false)
        × Usable (index_join_next left x join_field u rounds p).1
  stop (p, (t, s)) q h =
      go _ _
        (next_lem rounds p t s h.l h.ls h.found h.ahead h.on_left h.on_index h.opened h.keyed
          h.enough h.enough)
        h.coming
    where
      go :
          (r : Result Bool × (L × (T × S))) (out : List Row)
          → Next r out
          → out ≡ []
          → (r.0 ≡ ok false) × Usable r.1
      go r out (over e v z) k = (e, v)
      go r out (more q rest e v z) k = cc

  step :
      (p : L × (T × S)) (q : Option Row) (r : Row) (out : List Row)
      → Standing p q (r ∷ out)
      → ((index_join_next left x join_field u rounds p).0 ≡ ok true)
        × Standing (index_join_next left x join_field u rounds p).1 (some r) out
  step (p, (t, s)) q r out h =
      go _ _
        (next_lem rounds p t s h.l h.ls h.found h.ahead h.on_left h.on_index h.opened h.keyed
          h.enough h.enough)
        h.coming
    where
      go :
          (z : Result Bool × (L × (T × S))) (rows : List Row)
          → Next z rows
          → rows ≡ r ∷ out
          → (z.0 ≡ ok true) × Standing z.1 (some r) out
      go z rows (over e v k) m = cc
      go z rows (more q' rest e v k) m =
          let (same_row, same_rest) = cons_inj (sym k ∙ m) in
          (
            e,
            subst (λ y. Standing z.1 (some y) out) same_row
                (subst (λ y. Standing z.1 (some q') y) same_rest v),
          )

start :
    {L T S : Type 0} (left : Scan L) (x : Index S) (join_field : Text) (u : UpdateScan T)
    (lf fields : Text → Bool) (l : Row) (ls : List Row) (row : RecordId → Row)
    (IsKey : Constant → Type 0) (rids : Constant → List RecordId) (key : Row → Constant)
    (rounds : ℕ)
    → (c : Represents left lf (l ∷ ls)) (a : Answers x IsKey rids) (b : Holds u fields row)
    → (p : L) (t : T) (s : S) → c.IsUsable p
    → b.IsOpen t
    → a.IsUsable s
    → AllKeyed IsKey join_field key (l ∷ ls)
    → length ls < rounds
    → ((index_join_first left x join_field u (p, (t, s))).0 ≡ ok tt)
      × Standing left x join_field u lf fields
          (l ∷ ls)
          row
          IsKey
          rids
          key
          rounds
          c
          a
          b
          (index_join_first left x join_field u (p, (t, s))).1
          none
          (joined fields row rids key (l ∷ ls))
unfolding index_join_first
start left x join_field u lf fields l ls row IsKey rids key rounds c a b p t s up ot us (now, later)
      e =
    let (first, at_start) = c.start p up in
    let (more_rows, on) = c.step (left.before_first p).1 none l ls at_start in
    rw
      (
        first,
        more_rows,
        reset_lem left x join_field u lf fields (l ∷ ls) row IsKey rids key rounds c a b _ t s l ls
            on now us,
      )
      (
        refl,
        record {
          l = l;
          ls = ls;
          found = none;
          ahead = rids (key l);
          on_left = on;
          on_index = (a.start s (key l) now.1 us).1;
          opened = ot;
          keyed = later;
          enough = e;
          coming = refl;
          shown = λ r f z. cc;
        },
      )

-- The places of a join through an index, over those of the scan, the table and the index.
pub index_join_scan-Represents :
    {L T S : Type 0} (left : Scan L) (x : Index S) (join_field : Text) (u : UpdateScan T)
    (lf fields : Text → Bool) (l : Row) (ls : List Row) (row : RecordId → Row)
    (IsKey : Constant → Type 0) (rids : Constant → List RecordId) (key : Row → Constant)
    (rounds : ℕ)
    → Represents left lf (l ∷ ls)
    → Answers x IsKey rids
    → Holds u fields row
    → AllKeyed IsKey join_field key (l ∷ ls)
    → length ls < rounds
    → Represents
        (index_join_scan left x join_field u rounds)
        (λ f. fields f || lf f)
        (joined fields row rids key (l ∷ ls))
unfolding index_join_scan
index_join_scan-Represents left x join_field u lf fields l ls row IsKey rids key rounds c a b k e =
    record {
      IsUsable = Usable left x join_field u lf fields (l ∷ ls) row IsKey rids key rounds c a b;
      IsStanding = Standing left x join_field u lf fields (l ∷ ls) row IsKey rids key rounds c a b;
      usable = λ p q out h. (
        c.usable p.0 (some h.l) h.ls h.on_left,
        h.opened,
        a.usable p.1.1 h.found h.ahead h.on_index,
      );
      start = λ p h.
          start left x join_field u lf fields l ls row IsKey rids key rounds c a b p.0 p.1.0 p.1.1
            h.0 h.1 h.2 k e;
      stop = stop left x join_field u lf fields (l ∷ ls) row IsKey rids key rounds c a b;
      step = step left x join_field u lf fields (l ∷ ls) row IsKey rids key rounds c a b;
      value = λ p q out f h. h.shown q f refl;
      names = λ p f h. both (b.names p.1.0 f h.1) (c.names p.0 f h.0);
    }
