-- ===== src/Index/BtreeLeaf/Split.antt =====
-- Where a full leaf of a B-tree is split: src/libs/dbcore/index/btree/bt_leaf.h.
use myc_db.Prelude.{
  ℕ, zero, suc, ◌-◌, ◌/◌, ◌≤◌, ◌<◌, ◌^◌, ◌≡◌, refl, sym, ap, subst, inl, inr, arith, true, false, ℤ,
  pos, Result, ok, continue, Bool-cases,
}
use native.Mathlib.Decide.{dec_lt}
use myc_db.Query.Constant.{Constant, same_constant}
use myc_db.Index.BtreePage.{BtreePage, get_num_recs, get_data_val}
use myc_db.Index.BtreePage.Search.{Keyed}
use myc_db.Index.BtreeLeaf.{half, move_right, move_left, choose_split}
use myc_db.Tx.Access.{TxOps}
use myc_db.Index.BtreeLeaf.Moves.{
  same_constant→eq, same_constant_refl, First, move_right-First, move_left-First,
}

module _ {S : Type 0} (tx : TxOps S) (p : BtreePage) (n : ℕ) (keys : ℕ → Constant)
    (k : Keyed tx p n keys) (rounds : ℕ) (s t : S) (counted : get_num_recs tx p s ≡ (ok (pos n), t))
    (middle : (get_data_val tx p (pos (n / 2)) t).0 ≡ ok (keys (n / 2))) where
  -- The state in which the search starts.
  abbrev from_middle : S
  from_middle = (get_data_val tx p (pos (n / 2)) t).1

  choose_left :
      (j : ℕ)
      → same_constant (keys (n / 2)) (keys 0) ≡ false
      → (move_left tx p (keys (n / 2)) rounds (pos (n / 2)) from_middle).0 ≡ ok (pos j)
      → choose_split tx rounds p (keys 0) s ≡ (
        ok (pos j, keys (n / 2)),
        (move_left tx p (keys (n / 2)) rounds (pos (n / 2)) from_middle).1,
      )
  unfolding choose_split half
  choose_left j d e = rw (choose_split, counted, continue, middle, d, e) refl

  choose_right :
      (j : ℕ) (u : S)
      → same_constant (keys (n / 2)) (keys 0) ≡ true
      → move_right tx p (keys (n / 2)) rounds (pos (n / 2)) from_middle ≡ (ok (pos j), u)
      → (get_data_val tx p (pos j) u).0 ≡ ok (keys j)
      → choose_split tx rounds p (keys 0) s ≡ (ok (pos j, keys j), (get_data_val tx p (pos j) u).1)
  unfolding choose_split half
  choose_right j u d e v = rw (choose_split, counted, continue, middle, d, e, v) refl

differ :
    (a b c : Constant)
    → same_constant a c ≡ true
    → same_constant b c ≡ false
    → same_constant a b ≡ false
differ a b c h k = elim (Bool-cases (same_constant a b)) [
  | inr e ↦ e
  | inl e ↦ let h' = rw (same_constant→eq a b e) at h in cc
]

differ_sym : (a b : Constant) → same_constant a b ≡ false → same_constant b a ≡ false
differ_sym a b h = elim (Bool-cases (same_constant b a)) [
  | inr e ↦ e
  | inl e ↦ let h' = rw (same_constant→eq b a e) at h in cc (h', same_constant_refl a)
]

-- A search to the right from a record with the key moves.
First-suc :
    {S : Type 0} (tx : TxOps S) (p : BtreePage) (n : ℕ) (keys : ℕ → Constant)
    (k : Keyed tx p n keys) (small : n < 2 ^ 31) (i j : ℕ)
    → First tx p n keys k small (keys i) i j
    → (x : ℕ) × (j ≡ suc x) × (same_constant (keys x) (keys i) ≡ true)
First-suc tx p n keys k small i j f = elim (dec_lt i j) [
  | yes l ↦ (j - 1, omega arith, f.before (j - 1) (omega arith) (omega arith))
  | no ne ↦
      let z : j ≡ i = omega (arith, f.moved) in
      let d = subst (λ x. same_constant (keys x) (keys i) ≡ false) z f.differs in
      cc (d, same_constant_refl (keys i))
]

-- On a page of fewer than 2 ^ 31 records whose last key is not the first one, the place where a full
-- leaf is split lies behind the first record and not behind the last, so neither half is empty;
-- the key given to the directory is the one of the record there, and the record in front of it has
-- another key, so no group of equal keys next to each other is divided. The search takes no more rounds
-- than there are records.
pub choose_split-inside :
    {S : Type 0} (tx : TxOps S) (p : BtreePage) (n : ℕ) (keys : ℕ → Constant) (rounds : ℕ) (s : S)
    → (k : Keyed tx p n keys) → n < 2 ^ 31
    → same_constant (keys (n - 1)) (keys 0) ≡ false
    → n ≤ rounds
    → k.IsStanding s
    → (j : ℕ) × ((choose_split tx rounds p (keys 0) s).0 ≡ ok (pos (suc j), keys (suc j)))
      × (suc j < n)
      × (same_constant (keys j) (keys (suc j)) ≡ false)
      × k.IsStanding (choose_split tx rounds p (keys 0) s).1
choose_split-inside tx p zero keys rounds s k small e r st =
    let h = same_constant_refl (keys 0) in cc
choose_split-inside tx p (suc m) keys rounds s k small e r st =
    let n = suc m in
    let (count, st1) = k.count s st in
    let t = (get_num_recs tx p s).1 in
    let counted : get_num_recs tx p s ≡ (ok (pos n), t) = ap (λ (x : Result ℤ). (x, t)) count in
    let mid : ℕ = n / 2 in
    let inside : mid < n = omega arith in
    let (value, st2) = k.key t mid st1 inside in
    let u = (get_data_val tx p (pos mid) t).1 in
    elim (Bool-cases (same_constant (keys mid) (keys 0))) [
      | inr d ↦
          let (j, ends, l, a, b) =
            move_left-First tx p n keys k small (keys mid) rounds mid u st2 inside (omega arith)
              (same_constant_refl (keys mid)) (differ_sym _ _ d) in
          rw (choose_left tx p n keys k rounds s t counted value (suc j) d ends.done) (
            j,
            ap (λ c. ok (pos (suc j), c)) (sym (same_constant→eq _ _ a)),
            l,
            differ_sym _ _ (differ _ _ _ a b),
            ends.standing,
          )
      | inl d ↦
          let e' : same_constant (keys (n - 1)) (keys mid) ≡ false =
            rw (same_constant→eq _ _ d) e in
          let (j, ends, f) =
            move_right-First tx p n keys k small (keys mid) rounds mid u st2 inside (omega arith)
              e' in
          let (x, z, a) = First-suc tx p n keys k small mid j f in
          let v = (move_right tx p (keys mid) rounds (pos mid) u).1 in
          let moved : move_right tx p (keys mid) rounds (pos mid) u ≡ (ok (pos j), v) =
            ap (λ (y : Result ℤ). (y, v)) ends.done in
          let (last_value, st3) = k.key v j ends.standing f.inside in
          rw (choose_right tx p n keys k rounds s t counted value j v d moved last_value) (
            x,
            ap (λ y. ok (pos y, keys y)) z,
            subst (λ y. y < n) z f.inside,
            differ _ _ _ a (subst (λ y. same_constant (keys y) (keys mid) ≡ false) z f.differs),
            st3,
          )
    ]
