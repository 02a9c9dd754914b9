-- ===== src/Materialize/SortScan/Positions.antt =====
-- Where a scan of two runs stands: src/libs/dbcore/materialize/sort_scan.h.
use myc_db.Prelude.{◌≡◌, refl, Bool, true, false, List, [], ◌∷◌, Option, none, some, ok, Text}
use myc_db.Record.Schema.{RecordId}
use myc_db.Scan.{Scan, UpdateScan}
use myc_db.Scan.Contract.{Row, Represents}
use myc_db.Materialize.SortScan.{SortScan, Current, nothing, at_lhs, at_rhs, advance}
use myc_db.Materialize.SortScan.Weave.{AllHave, weave}

-- What the flag says of the scan of a run: it stands on the first of the rows, or there are none.
abbrev pub Ahead :
    {S : Type 0} {sc : Scan S} {fields : Text → Bool} {all : List Row}
    → Represents sc fields all
    → S
    → Bool
    → List Row
    → Type 0
Ahead c s true [] = ⊥
Ahead c s true (r ∷ rs) = c.IsStanding s (some r) rs
Ahead c s false [] = c.IsUsable s
Ahead c s false (r ∷ rs) = ⊥

pub Ahead-usable :
    {S : Type 0} {sc : Scan S} {fields : Text → Bool} {all : List Row}
    (c : Represents sc fields all) (s : S) (b : Bool) (rs : List Row)
    → Ahead c s b rs
    → c.IsUsable s
Ahead-usable c s true [] h = absurd h
Ahead-usable c s true (r ∷ rs) h = c.usable s (some r) rs h
Ahead-usable c s false [] h = h
Ahead-usable c s false (r ∷ rs) h = absurd h

pub move_lem :
    {S : Type 0} {sc : Scan S} {fields : Text → Bool} {all : List Row}
    (c : Represents sc fields all) (s : S) (q : Option Row) (rs : List Row)
    → c.IsStanding s q rs
    → (b : Bool) × ((sc.next s).0 ≡ ok b) × Ahead c (sc.next s).1 b rs
move_lem c s q [] h = (false, (c.stop s q h).0, (c.stop s q h).1)
move_lem c s q (r ∷ rs) h = (true, (c.step s q r rs h).0, (c.step s q r rs h).1)

-- A scan of two runs.
abbrev pub at : {L R : Type 0} → L → R → Current → Bool → Bool → RecordId × RecordId → SortScan L R
at l r cur more1 more2 saved = record {
  lhs = l;
  rhs = some r;
  curr = cur;
  lhs_more = more1;
  rhs_more = more2;
  saved = saved;
}

module _ {L R : Type 0} (left : UpdateScan L) (right : UpdateScan R) (fs : List Text)
    (fields : Text → Bool) (lefts rights : List Row) (a : Represents left.scan fields lefts)
    (c : Represents right.scan fields rights) where
  pub record Usable (s : SortScan L R) : Type 0 where
    pub l : L
    pub r : R
    pub cur : Current
    pub more1 : Bool
    pub more2 : Bool
    pub saved : RecordId × RecordId
    pub here : s ≡ at l r cur more1 more2 saved
    pub use_l : a.IsUsable l
    pub use_r : c.IsUsable r

  -- Both scans stand on the rows that come next.
  pub record Ready (s : SortScan L R) (out : List Row) : Type 0 where
    pub l : L
    pub r : R
    pub cur : Current
    pub more1 : Bool
    pub more2 : Bool
    pub saved : RecordId × RecordId
    pub here : s ≡ at l r cur more1 more2 saved
    pub ls : List Row
    pub rs : List Row
    pub on_l : Ahead a l more1 ls
    pub on_r : Ahead c r more2 rs
    pub have_l : AllHave fs ls
    pub have_r : AllHave fs rs
    pub coming : weave fs ls rs ≡ out

  pub data Standing (s : SortScan L R) (q : Option Row) (out : List Row) : Type 0 where
    fresh :
        (l : L) (r : R) (more1 more2 : Bool) (saved : RecordId × RecordId) (ls rs : List Row)
        → s ≡ at l r nothing more1 more2 saved
        → Ahead a l more1 ls
        → Ahead c r more2 rs
        → AllHave fs ls
        → AllHave fs rs
        → q ≡ none
        → weave fs ls rs ≡ out
        → Standing s q out
    on_left :
        (l : L) (r : R) (more1 more2 : Bool) (saved : RecordId × RecordId) (x : Row)
        (ls rs : List Row)
        → s ≡ at l r at_lhs more1 more2 saved
        → a.IsStanding l (some x) ls
        → Ahead c r more2 rs
        → AllHave fs ls
        → AllHave fs rs
        → q ≡ some x
        → weave fs ls rs ≡ out
        → Standing s q out
    on_right :
        (l : L) (r : R) (more1 more2 : Bool) (saved : RecordId × RecordId) (y : Row)
        (ls rs : List Row)
        → s ≡ at l r at_rhs more1 more2 saved
        → Ahead a l more1 ls
        → c.IsStanding r (some y) rs
        → AllHave fs ls
        → AllHave fs rs
        → q ≡ some y
        → weave fs ls rs ≡ out
        → Standing s q out

  pub usable : (s : SortScan L R) (q : Option Row) (out : List Row) → Standing s q out → Usable s
  usable s q out (fresh l r m n sv ls rs e h k v w z o) = record {
    l = l;
    r = r;
    cur = nothing;
    more1 = m;
    more2 = n;
    saved = sv;
    here = e;
    use_l = Ahead-usable a l m ls h;
    use_r = Ahead-usable c r n rs k;
  }
  usable s q out (on_left l r m n sv x ls rs e h k v w z o) = record {
    l = l;
    r = r;
    cur = at_lhs;
    more1 = m;
    more2 = n;
    saved = sv;
    here = e;
    use_l = a.usable l (some x) ls h;
    use_r = Ahead-usable c r n rs k;
  }
  usable s q out (on_right l r m n sv y ls rs e h k v w z o) = record {
    l = l;
    r = r;
    cur = at_rhs;
    more1 = m;
    more2 = n;
    saved = sv;
    here = e;
    use_l = Ahead-usable a l m ls h;
    use_r = c.usable r (some y) rs k;
  }

  abbrev pub Advanced : SortScan L R → List Row → Type 0
  Advanced s out = (t : SortScan L R) × (advance left right fs s ≡ (ok tt, t)) × Ready t out

  pub advance_lem :
      (s : SortScan L R) (q : Option Row) (out : List Row) → Standing s q out → Advanced s out
  unfolding advance
  advance_lem s q out (fresh l r m n sv ls rs e h k v w z o) = (
    s,
    rw e refl,
    record {
      l = l;
      r = r;
      cur = nothing;
      more1 = m;
      more2 = n;
      saved = sv;
      here = e;
      ls = ls;
      rs = rs;
      on_l = h;
      on_r = k;
      have_l = v;
      have_r = w;
      coming = o;
    },
  )
  advance_lem s q out (on_left l r m n sv x ls rs e h k v w z o) =
      let (b, more, on) = move_lem a l (some x) ls h in
      (
        at (left.scan.next l).1 r at_lhs b n sv,
        rw (e, more) refl,
        record {
          l = _;
          r = r;
          cur = at_lhs;
          more1 = b;
          more2 = n;
          saved = sv;
          here = refl;
          ls = ls;
          rs = rs;
          on_l = on;
          on_r = k;
          have_l = v;
          have_r = w;
          coming = o;
        },
      )
  advance_lem s q out (on_right l r m n sv y ls rs e h k v w z o) =
      let (b, more, on) = move_lem c r (some y) rs k in
      (
        at l (right.scan.next r).1 at_rhs m b sv,
        rw (e, more) refl,
        record {
          l = l;
          r = _;
          cur = at_rhs;
          more1 = m;
          more2 = b;
          saved = sv;
          here = refl;
          ls = ls;
          rs = rs;
          on_l = h;
          on_r = on;
          have_l = v;
          have_r = w;
          coming = o;
        },
      )
