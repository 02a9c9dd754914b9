-- ===== src/Scan/Product/Rows.antt =====
-- The rows of a product are the pairs of rows: src/libs/dbcore/scan/product_scan.h.
use myc_db.Prelude.{
  ◌≡◌, refl, sym, subst, ap, ◌∙◌, Bool, true, false, ◌||◌, List, [], ◌∷◌, ◌++◌, Option, none, some,
  if◌then◌else◌, ok, Text, map, ◌⊎◌, inl, inr, List-cases, cons_inj, some_inj,
}
use myc_db.Scan.{Scan}
use myc_db.Scan.Contract.{Row, Represents}
use myc_db.Scan.Passes.{Passes}
use myc_db.Scan.Product.{product_first, next_left, product_next, product_scan}

-- A field is looked up on the left first.
abbrev pub pair_row : (Text → Bool) → Row → Row → Row
pair_row fields l r f = if fields f then l f else r f

abbrev pub pairs : (Text → Bool) → List Row → List Row → List Row
pairs fields [] rs = []
pairs fields (l ∷ ls) rs = map (pair_row fields l) rs ++ pairs fields ls rs

pair_option : (Text → Bool) → Row → Option Row → Option Row
pair_option fields l none = none
pair_option fields l (some r) = some (pair_row fields l r)

pairs_nil : (lf : Text → Bool) (ls : List Row) → pairs lf ls [] ≡ []
pairs_nil lf [] = refl
pairs_nil lf (l ∷ ls) = pairs_nil lf ls

pairs_empty :
    (lf : Text → Bool) (ls rights : List Row) → pairs lf ls rights ≡ [] → (ls ≡ []) ⊎ (rights ≡ [])
pairs_empty lf [] rights e = inl refl
pairs_empty lf (l ∷ ls) [] e = inr refl
pairs_empty lf (l ∷ ls) (r ∷ rights) e = cc

pairs_cons :
    (lf : Text → Bool) (ls rights : List Row) (q : Row) (out : List Row)
    → pairs lf ls rights ≡ q ∷ out
    → (l : Row) × (ls' : List Row) × (r : Row) × (rs : List Row) × (ls ≡ l ∷ ls')
      × (rights ≡ r ∷ rs)
      × (pair_row lf l r ≡ q)
      × (map (pair_row lf l) rs ++ pairs lf ls' rights ≡ out)
pairs_cons lf [] rights q out e = cc
pairs_cons lf (l ∷ ls) [] q out e = let e' : [] ≡ q ∷ out = sym (pairs_nil lf ls) ∙ e in cc
pairs_cons lf (l ∷ ls) (r ∷ rs) q out e = (l, ls, r, rs, refl, refl, cc, cc)

or_test : (x y : Bool) → (if x then ok true else ok y) ≡ ok (x || y)
or_test true y = refl
or_test false y = refl

module _ {S T : Type 0} (left : Scan S) (right : Scan T) (lf rf : Text → Bool)
    (lefts rights : List Row) (a : Represents left lf lefts) (b : Represents right rf rights) where
  abbrev BothUsable : S × T → Type 0
  BothUsable p = a.IsUsable p.0 × b.IsUsable p.1

  -- The right scan has no rows at all.
  next_left-empty :
      (s : S) (t : T)
      → a.IsUsable s
      → b.IsUsable t
      → rights ≡ []
      → ((next_left left right (s, t)).0 ≡ ok false) × BothUsable (next_left left right (s, t)).1
  unfolding next_left
  next_left-empty s t us ut e =
      let (done, on) = b.start t ut in
      let (no_more, ut') =
        b.stop (right.before_first t).1 none
          (subst (b.IsStanding (right.before_first t).1 none) e on) in
      rw (done, no_more) (refl, (us, ut'))

  -- The left scan is over.
  next_left-stop :
      (s : S) (t : T) (l : Row) (r : Row) (rs : List Row)
      → a.IsStanding s (some l) []
      → b.IsUsable t
      → rights ≡ r ∷ rs
      → ((next_left left right (s, t)).0 ≡ ok false) × BothUsable (next_left left right (s, t)).1
  unfolding next_left
  next_left-stop s t l r rs h ut e =
      let (done, on) = b.start t ut in
      let (more, on') =
        b.step (right.before_first t).1 none r rs
          (subst (b.IsStanding (right.before_first t).1 none) e on) in
      let (no_more, us) = a.stop s (some l) h in rw (done, more) (no_more, (us, b.usable _ _ _ on'))

  -- The left scan goes on.
  next_left-step :
      (s : S) (t : T) (l l' : Row) (ls : List Row) (r : Row) (rs : List Row)
      → a.IsStanding s (some l) (l' ∷ ls)
      → b.IsUsable t
      → rights ≡ r ∷ rs
      → ((next_left left right (s, t)).0 ≡ ok true)
        × a.IsStanding (next_left left right (s, t)).1.0 (some l') ls
        × b.IsStanding (next_left left right (s, t)).1.1 (some r) rs
  unfolding next_left
  next_left-step s t l l' ls r rs h ut e =
      let (done, on) = b.start t ut in
      let (more, on') =
        b.step (right.before_first t).1 none r rs
          (subst (b.IsStanding (right.before_first t).1 none) e on) in
      let (go, on_l) = a.step s (some l) l' ls h in rw (done, more) (go, on_l, on')

  right_over :
      (s : S) (t : T) (c : Option Row)
      → b.IsStanding t c []
      → product_next left right (s, t) ≡ next_left left right (s, (right.next t).1)
  unfolding product_next
  right_over s t c h = let (no_more, ut) = b.stop t c h in rw no_more

  right_on :
      (s : S) (t : T) (c : Option Row) (r : Row) (rs : List Row)
      → b.IsStanding t c (r ∷ rs)
      → product_next left right (s, t) ≡ (ok true, (s, (right.next t).1))
  unfolding product_next
  right_on s t c r rs h = let (more, on) = b.step t c r rs h in rw more

  -- The left scan stands on `l`, with `ls` still to come, the right one before `rs`.
  record Pairing (p : S × T) (c : Option Row) (out : List Row) : Type 0 where
    l : Row
    ls : List Row
    cr : Option Row
    rs : List Row
    on_l : a.IsStanding p.0 (some l) ls
    on_r : b.IsStanding p.1 cr rs
    current : c ≡ pair_option lf l cr
    ahead : map (pair_row lf l) rs ++ pairs lf ls rights ≡ out

  right_usable : (t : T) (c : Option Row) → b.IsStanding t c [] → b.IsUsable (right.next t).1
  right_usable t c h = (b.stop t c h).1

  product-stop :
      (s : S) (t : T) (l : Row) (ls : List Row) (cr : Option Row) (rs : List Row)
      → a.IsStanding s (some l) ls
      → b.IsStanding t cr rs
      → map (pair_row lf l) rs ++ pairs lf ls rights ≡ []
      → ((product_next left right (s, t)).0 ≡ ok false)
        × BothUsable (product_next left right (s, t)).1
  product-stop s t l ls cr (r ∷ rs) hl hr e = cc
  product-stop s t l ls cr [] hl hr e = rw (right_over s t cr hr) (elim (List-cases rights) [
    | inl none_there ↦
        next_left-empty s (right.next t).1 (a.usable s (some l) ls hl) (right_usable t cr hr)
          none_there
    | inr (r, rs, some_there) ↦
        next_left-stop s (right.next t).1 l r rs
          (subst (a.IsStanding s (some l)) (left_done r rs some_there) hl) (right_usable t cr hr)
          some_there
  ])
    where
      left_done : (r : Row) (rs : List Row) → rights ≡ r ∷ rs → ls ≡ []
      left_done r rs f = elim (pairs_empty lf ls rights e) [
        | inl done ↦ done
        | inr none_there ↦ let g : [] ≡ r ∷ rs = sym none_there ∙ f in cc
      ]

  product-step :
      (s : S) (t : T) (l : Row) (ls : List Row) (cr : Option Row) (rs : List Row) (q : Row)
      (out : List Row)
      → a.IsStanding s (some l) ls
      → b.IsStanding t cr rs
      → map (pair_row lf l) rs ++ pairs lf ls rights ≡ q ∷ out
      → ((product_next left right (s, t)).0 ≡ ok true)
        × Pairing (product_next left right (s, t)).1 (some q) out
  unfolding pair_option
  product-step s t l ls cr (r ∷ rs) q out hl hr e =
      let (same, rest) = cons_inj e in
      rw (right_on s t cr r rs hr) (
        refl,
        record {
          l = l;
          ls = ls;
          cr = some r;
          rs = rs;
          on_l = hl;
          on_r = (b.step t cr r rs hr).1;
          current = ap some (sym same);
          ahead = rest;
        },
      )
  product-step s t l ls cr [] q out hl hr e =
      let (l', ls', r, rs, e_ls, e_rs, same, rest) = pairs_cons lf ls rights q out e in
      let (go, on_l, on_r) =
        next_left-step s (right.next t).1 l l' ls' r rs (subst (a.IsStanding s (some l)) e_ls hl)
          (right_usable t cr hr) e_rs in
      rw (right_over s t cr hr) (
        go,
        record {
          l = l';
          ls = ls';
          cr = some r;
          rs = rs;
          on_l = on_l;
          on_r = on_r;
          current = ap some (sym same);
          ahead = rest;
        },
      )

  product-value :
      (s : S) (t : T) (l : Row) (ls : List Row) (cr : Option Row) (rs : List Row) (q : Row)
      (f : Text)
      → a.IsStanding s (some l) ls
      → b.IsStanding t cr rs
      → some q ≡ pair_option lf l cr
      → (product_scan left right).get_val f (s, t) ≡ q f
  unfolding product_scan pair_option
  product-value s t l ls none rs q f hl hr e = cc
  product-value s t l ls (some r) rs q f hl hr e =
      rw (a.names s f (a.usable s (some l) ls hl), a.value s l ls f hl, b.value t r rs f hr)
        (ap (λ row. row f) (sym (some_inj e)))

  product-names :
      (s : S) (t : T) (f : Text)
      → BothUsable (s, t)
      → (product_scan left right).has_field f (s, t) ≡ ok (lf f || rf f)
  unfolding product_scan
  product-names s t f (us, ut) = rw (a.names s f us, b.names t f ut) (or_test (lf f) (rf f))

product-start :
    {S T : Type 0} (left : Scan S) (right : Scan T) (lf rf : Text → Bool) (l : Row)
    (ls rights : List Row)
    → (a : Represents left lf (l ∷ ls)) (b : Represents right rf rights) (s : S) (t : T)
    → a.IsUsable s
    → b.IsUsable t
    → ((product_first left right (s, t)).0 ≡ ok tt)
      × Pairing left right lf rf
          (l ∷ ls)
          rights
          a
          b
          (product_first left right (s, t)).1
          none
          (pairs lf (l ∷ ls) rights)
unfolding product_first pair_option
product-start left right lf rf l ls rights a b s t us ut =
    let (done_l, on_l) = a.start s us in
    let (more, on_l') = a.step (left.before_first s).1 none l ls on_l in
    let (done_r, on_r) = b.start t ut in
    rw (done_l, more)
      (
        done_r,
        record {
          l = l;
          ls = ls;
          cr = none;
          rs = rights;
          on_l = on_l';
          on_r = on_r;
          current = refl;
          ahead = refl;
        },
      )

-- The places of a product, over those of the two scans.
pub product_scan-Represents :
    {S T : Type 0} (left : Scan S) (right : Scan T) (lf rf : Text → Bool) (l : Row)
    (ls rights : List Row)
    → Represents left lf (l ∷ ls)
    → Represents right rf rights
    → Represents (product_scan left right) (λ f. lf f || rf f) (pairs lf (l ∷ ls) rights)
unfolding product_scan
product_scan-Represents left right lf rf l ls rights a b = record {
  IsUsable = BothUsable left right lf rf (l ∷ ls) rights a b;
  IsStanding = Pairing left right lf rf (l ∷ ls) rights a b;
  usable = λ p c out h. (a.usable p.0 (some h.l) h.ls h.on_l, b.usable p.1 h.cr h.rs h.on_r);
  start = λ p h. product-start left right lf rf l ls rights a b p.0 p.1 h.0 h.1;
  stop = λ p c h.
      product-stop left right lf rf (l ∷ ls) rights a b p.0 p.1 h.l h.ls h.cr h.rs h.on_l h.on_r
        h.ahead;
  step = λ p c q out h.
      product-step left right lf rf (l ∷ ls) rights a b p.0 p.1 h.l h.ls h.cr h.rs q out h.on_l
        h.on_r h.ahead;
  value = λ p q out f h.
      product-value left right lf rf (l ∷ ls) rights a b p.0 p.1 h.l h.ls h.cr h.rs q f h.on_l
        h.on_r h.current;
  names = λ p f h. product-names left right lf rf (l ∷ ls) rights a b p.0 p.1 f h;
}

-- A product whose left scan is empty starts, and gives a row all the same, if the right one has
-- one.
pub product_scan-empty_left :
    {S T : Type 0} (left : Scan S) (right : Scan T) (lf rf : Text → Bool) (r : Row) (rs : List Row)
    → (a : Represents left lf []) (b : Represents right rf (r ∷ rs)) (s : S) (t : T) → a.IsUsable s
    → b.IsUsable t
    → let first = (product_scan left right).before_first (s, t) in
      (first.0 ≡ ok tt) × (((product_scan left right).next first.1).0 ≡ ok true)
unfolding product_scan product_first product_next
product_scan-empty_left left right lf rf r rs a b s t us ut =
    let (done_l, on_l) = a.start s us in
    let (over, us') = a.stop (left.before_first s).1 none on_l in
    let (done_r, on_r) = b.start t ut in
    let (more, on_r') = b.step (right.before_first t).1 none r rs on_r in
    rw (done_l, over, done_r, more) (refl, refl)
