-- ===== src/Materialize/SortScan/Rows.antt =====
-- The rows of a scan of two runs: src/libs/dbcore/materialize/sort_scan.h.
use myc_db.Prelude.{
  ◌≡◌, refl, sym, ap, ◌∙◌, Bool, true, false, List, [], ◌∷◌, Option, none, some, Bool-cases,
  cons_inj, inl, inr, Result, ok, Text, some_inj, subst, fun_ext,
}
use myc_db.Record.Schema.{RecordId}
use myc_db.Scan.{UpdateScan}
use myc_db.Scan.Contract.{Row, Represents, Visits}
use myc_db.Scan.Passes.{Passes}
use myc_db.Materialize.SortScan.{
  SortScan, Current, compare_heads, choose_head, sort_first, sort_next, sort_scan,
}
use myc_db.Materialize.SortScan.Positions.{
  Ahead, at, Usable, Standing, fresh, on_left, on_right, usable, move_lem, advance_lem,
}
use myc_db.Materialize.SortScan.Weave.{
  AllHave, agree, compare_lem, weave, weave-empty, weave-none, weave-later, weave-first,
}

module _ {L R : Type 0} (left : UpdateScan L) (right : UpdateScan R) (fs : List Text)
    (fields : Text → Bool) (lefts rights : List Row) (a : Represents left.scan fields lefts)
    (c : Represents right.scan fields rights) where
  abbrev Stands : SortScan L R → Option Row → List Row → Type 0
  Stands = Standing left right fs fields lefts rights a c

  abbrev IsOpen : SortScan L R → Type 0
  IsOpen = Usable left right fs fields lefts rights a c

  heads :
      (l : L) (r : R) (cur : Current) (saved : RecordId × RecordId) (x y : Row) (ls rs : List Row)
      → a.IsStanding l (some x) ls
      → c.IsStanding r (some y) rs
      → AllHave fs (x ∷ ls)
      → AllHave fs (y ∷ rs)
      → compare_heads left right fs (at l r cur true true saved) ≡ ok (agree fs x y)
  unfolding compare_heads
  heads l r cur saved x y ls rs h k v w =
      let same_l = fun_ext (λ f. a.value l x ls f h) in
      let same_r = fun_ext (λ f. c.value r y rs f k) in
      rw (same_l, same_r) (compare_lem fs x y v.0 w.0)

  -- What a choice gives when the rows `out` are to come.
  data Chosen (r : Result Bool × SortScan L R) (out : List Row) : Type 0 where
    over : r.0 ≡ ok false → IsOpen r.1 → out ≡ [] → Chosen r out
    more :
        (q : Row) (rest : List Row)
        → r.0 ≡ ok true
        → Stands r.1 (some q) rest
        → out ≡ q ∷ rest
        → Chosen r out

  choose_at :
      (l : L) (r : R) (cur : Current) (m n : Bool) (saved : RecordId × RecordId) (ls rs : List Row)
      → Ahead a l m ls
      → Ahead c r n rs
      → AllHave fs ls
      → AllHave fs rs
      → Chosen (choose_head left right fs (at l r cur m n saved)) (weave fs ls rs)
  unfolding choose_head
  choose_at l r cur true n sv [] rs h k v w = absurd h
  choose_at l r cur false n sv (x ∷ ls) rs h k v w = absurd h
  choose_at l r cur m true sv ls [] h k v w = absurd k
  choose_at l r cur m false sv ls (y ∷ rs) h k v w = absurd k
  choose_at l r cur false false sv [] [] h k v w =
      over refl
        (record {
          l = l;
          r = r;
          cur = cur;
          more1 = false;
          more2 = false;
          saved = sv;
          here = refl;
          use_l = h;
          use_r = k;
        })
        (weave-empty fs [])
  choose_at l r cur true false sv (x ∷ ls) [] h k v w =
      more x ls refl (on_left l r true false sv x ls [] refl h k v.1 w refl (weave-empty fs ls))
        (weave-empty fs (x ∷ ls))
  choose_at l r cur false true sv [] (y ∷ rs) h k v w =
      more y rs refl (on_right l r false true sv y [] rs refl h k v w.1 refl (weave-none fs rs))
        (weave-none fs (y ∷ rs))
  choose_at l r cur true true sv (x ∷ ls) (y ∷ rs) h k v w =
      let e = heads l r cur sv x y ls rs h k v w in
      elim (Bool-cases (agree fs x y)) [
        | inl b ↦ rw (e ∙ ap ok b) (
            more y (weave fs (x ∷ ls) rs) refl
              (on_right l r true true sv y (x ∷ ls) rs refl h k v w.1 refl refl)
              (weave-later fs x ls y rs b))
        | inr b ↦ rw (e ∙ ap ok b) (
            more x (weave fs ls (y ∷ rs)) refl
              (on_left l r true true sv x ls (y ∷ rs) refl h k v.1 w refl refl)
              (weave-first fs x ls y rs b))
      ]

  next_lem :
      (s : SortScan L R) (q : Option Row) (out : List Row)
      → Stands s q out
      → Chosen (sort_next left right fs s) out
  unfolding sort_next
  next_lem s q out h =
      let (t, e, d) = advance_lem left right fs fields lefts rights a c s q out h in
      let chosen =
        choose_at d.l d.r d.cur d.more1 d.more2 d.saved d.ls d.rs d.on_l d.on_r d.have_l d.have_r in
      rw e (
        subst (λ u. Chosen (choose_head left right fs u) out) (sym d.here)
          (subst
            (λ z. Chosen (choose_head left right fs (at d.l d.r d.cur d.more1 d.more2 d.saved)) z)
            d.coming chosen))

  stop :
      (s : SortScan L R) (q : Option Row)
      → Stands s q []
      → ((sort_next left right fs s).0 ≡ ok false) × IsOpen (sort_next left right fs s).1
  stop s q h = go _ _ (next_lem s q [] h) refl
    where
      go :
          (z : Result Bool × SortScan L R) (out : List Row)
          → Chosen z out
          → out ≡ []
          → (z.0 ≡ ok false) × IsOpen z.1
      go z out (over e u k) d = (e, u)
      go z out (more q' rest e u k) d = cc

  step :
      (s : SortScan L R) (q : Option Row) (r : Row) (rs : List Row)
      → Stands s q (r ∷ rs)
      → ((sort_next left right fs s).0 ≡ ok true) × Stands (sort_next left right fs s).1 (some r) rs
  step s q r rs h = go _ _ (next_lem s q (r ∷ rs) h) refl
    where
      go :
          (z : Result Bool × SortScan L R) (out : List Row)
          → Chosen z out
          → out ≡ r ∷ rs
          → (z.0 ≡ ok true) × Stands z.1 (some r) rs
      go z out (over e u k) d = cc
      go z out (more q' rest e u k) d =
          let (same_row, same_rest) = cons_inj (sym k ∙ d) in
          (
            e,
            subst (λ y. Stands z.1 (some y) rs) same_row
                (subst (λ y. Stands z.1 (some q') y) same_rest u),
          )

  start :
      (s : SortScan L R)
      → AllHave fs lefts
      → AllHave fs rights
      → IsOpen s
      → ((sort_first left right fs s).0 ≡ ok tt)
        × Stands (sort_first left right fs s).1 none (weave fs lefts rights)
  unfolding sort_first
  start s v w u =
      let (first_l, on_l) = a.start u.l u.use_l in
      let (first_r, on_r) = c.start u.r u.use_r in
      let (m, more_l, ahead_l) = move_lem a _ none lefts on_l in
      let (n, more_r, ahead_r) = move_lem c _ none rights on_r in
      rw (u.here, first_l, more_l, first_r, more_r)
        (refl, fresh _ _ m n u.saved lefts rights refl ahead_l ahead_r v w refl refl)

  value :
      (s : SortScan L R) (q : Row) (out : List Row) (f : Text)
      → Stands s (some q) out
      → (sort_scan left right fs).get_val f s ≡ q f
  unfolding sort_scan
  value s q out f (fresh l r m n sv ls rs e h k v w z o) = cc
  value s q out f (on_left l r m n sv x ls rs e h k v w z o) =
      rw e (a.value l x ls f h ∙ ap (λ (y : Row). y f) (sym (some_inj z)))
  value s q out f (on_right l r m n sv y ls rs e h k v w z o) =
      rw e (c.value r y rs f k ∙ ap (λ (x : Row). x f) (sym (some_inj z)))

  listed :
      (s : SortScan L R) (q : Row) (out : List Row) (f : Text)
      → Stands s (some q) out
      → (sort_scan left right fs).has_field f s ≡ ok (fields f)
  unfolding sort_scan
  listed s q out f (fresh l r m n sv ls rs e h k v w z o) = cc
  listed s q out f (on_left l r m n sv x ls rs e h k v w z o) =
      rw e (a.names l f (a.usable l (some x) ls h))
  listed s q out f (on_right l r m n sv y ls rs e h k v w z o) =
      rw e (c.names r f (c.usable r (some y) rs k))

-- The places of a sort scan of two runs, over those of the runs.
pub sort_scan-Visits :
    {L R : Type 0} (left : UpdateScan L) (right : UpdateScan R) (fs : List Text)
    (fields : Text → Bool) (lefts rights : List Row)
    → Represents left.scan fields lefts
    → Represents right.scan fields rights
    → AllHave fs lefts
    → AllHave fs rights
    → Visits (sort_scan left right fs) fields (weave fs lefts rights)
unfolding sort_scan
sort_scan-Visits left right fs fields lefts rights a c v w = record {
  IsUsable = Usable left right fs fields lefts rights a c;
  IsStanding = Standing left right fs fields lefts rights a c;
  usable = usable left right fs fields lefts rights a c;
  start = λ s u. start left right fs fields lefts rights a c s v w u;
  stop = stop left right fs fields lefts rights a c;
  step = step left right fs fields lefts rights a c;
  value = value left right fs fields lefts rights a c;
  names = listed left right fs fields lefts rights a c;
}
