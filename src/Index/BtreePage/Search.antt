-- ===== src/Index/BtreePage/Search.antt =====
-- The search for a key on a page of a B-tree: src/libs/dbcore/index/btree/bt_page.h.
use myc_db.Prelude.{
  ℕ, zero, suc, ◌+◌, ◌≤◌, ◌<◌, ◌^◌, ◌≡◌, refl, ap, subst, ◌⊎◌, inl, inr, arith, true, false, ℤ, pos,
  negsuc, ltb_ℤ, ◌-ℤ◌, Result, ok, continue, Bool-cases,
}
use native.Mathlib.Decide.{dec_lt}
use myc_db.File.Page.{add_int}
use myc_db.Query.Constant.{Constant, same_constant}
use myc_db.Index.BtreePage.{BtreePage, get_num_recs, get_data_val, find_from, find_slot_before}
use myc_db.Tx.Access.{TxOps}

-- The page has `n` records with these keys: what a transaction reads in any state where `IsStanding`
-- holds, which reading keeps.
pub record Keyed {S : Type 0} (tx : TxOps S) (p : BtreePage) (n : ℕ) (keys : ℕ → Constant)
    : Type 1 where
  pub IsStanding : S → Type 0
  pub count :
      (s : S)
      → IsStanding s
      → ((get_num_recs tx p s).0 ≡ ok (pos n)) × IsStanding (get_num_recs tx p s).1
  pub key :
      (s : S) (i : ℕ)
      → IsStanding s
      → i < n
      → ((get_data_val tx p (pos i) s).0 ≡ ok (keys i)) × IsStanding (get_data_val tx p (pos i) s).1

-- `j` is the first of the `n` slots with the key, or `n` if there is none.
pub record FirstKey (keys : ℕ → Constant) (key : Constant) (n j : ℕ) : Type 0 where
  pub inside : j ≤ n
  pub before : (i : ℕ) → i < j → same_constant (keys i) key ≡ false
  pub found : (j ≡ n) ⊎ (same_constant (keys j) key ≡ true)

module _ {S : Type 0} (tx : TxOps S) (p : BtreePage) (n : ℕ) (keys : ℕ → Constant)
    (k : Keyed tx p n keys) (key : Constant) (small : n < 2 ^ 31) where
  find_over :
      (rounds i : ℕ) (s : S)
      → (get_num_recs tx p s).0 ≡ ok (pos n)
      → ltb_ℤ (pos i) (pos n) ≡ false
      → find_from tx p key (suc rounds) (pos i) s ≡ (ok (pos i), (get_num_recs tx p s).1)
  unfolding find_from
  find_over rounds i s c l = rw (find_from, c, continue, l) refl

  find_hit :
      (rounds i : ℕ) (s t : S)
      → get_num_recs tx p s ≡ (ok (pos n), t)
      → ltb_ℤ (pos i) (pos n) ≡ true
      → (get_data_val tx p (pos i) t).0 ≡ ok (keys i)
      → same_constant (keys i) key ≡ true
      → find_from tx p key (suc rounds) (pos i) s ≡ (ok (pos i), (get_data_val tx p (pos i) t).1)
  unfolding find_from
  find_hit rounds i s t c l v e = rw (find_from, c, continue, l, v, e) refl

  find_next :
      (rounds i : ℕ) (s t : S)
      → get_num_recs tx p s ≡ (ok (pos n), t)
      → ltb_ℤ (pos i) (pos n) ≡ true
      → (get_data_val tx p (pos i) t).0 ≡ ok (keys i)
      → same_constant (keys i) key ≡ false
      → add_int (pos i) (pos 1) ≡ ok (pos (suc i))
      → find_from tx p key (suc rounds) (pos i) s
        ≡ find_from tx p key rounds (pos (suc i)) (get_data_val tx p (pos i) t).1
  unfolding find_from
  find_next rounds i s t c l v e a = rw (find_from, c, continue, l, v, e, a) refl

  extend :
      (i : ℕ)
      → ((j : ℕ) → j < i → same_constant (keys j) key ≡ false)
      → same_constant (keys i) key ≡ false
      → (j : ℕ) → j < suc i
      → same_constant (keys j) key ≡ false
  extend i before e j h = elim (dec_lt j i) [
    | yes l ↦ before j l
    | no ne ↦
        let same : i ≡ j = omega arith in subst (λ x. same_constant (keys x) key ≡ false) same e
  ]

  add_one : (i : ℕ) → i < n → add_int (pos i) (pos 1) ≡ ok (pos (suc i))
  unfolding add_int
  add_one i h = ground arith

  find_from-FirstKey :
      (rounds i : ℕ) (s : S)
      → k.IsStanding s
      → i ≤ n
      → n < i + rounds
      → ((j : ℕ) → j < i → same_constant (keys j) key ≡ false)
      → (j : ℕ) × ((find_from tx p key rounds (pos i) s).0 ≡ ok (pos j))
        × FirstKey keys key n j
        × k.IsStanding (find_from tx p key rounds (pos i) s).1
  find_from-FirstKey zero i s st h r before = absurd (omega arith)
  find_from-FirstKey (suc m) i s st h r before =
      let (count, st') = k.count s st in
      let t = (get_num_recs tx p s).1 in
      let counted : get_num_recs tx p s ≡ (ok (pos n), t) = ap (λ (x : Result ℤ). (x, t)) count in
      elim (Bool-cases (ltb_ℤ (pos i) (pos n))) [
        | inr l ↦
            let last : i ≡ n = ground arith in
            rw (find_over m i s count l)
              (i, refl, record { inside = h; before = before; found = inl last }, st')
        | inl l ↦
            let here : i < n = ground arith in
            let (value, st'') = k.key t i st' here in
            elim (Bool-cases (same_constant (keys i) key)) [
              | inl e ↦
                  rw (find_hit m i s t counted l value e)
                    (i, refl, record { inside = h; before = before; found = inr e }, st'')
              | inr e ↦ rw (find_next m i s t counted l value e (add_one i here)) (
                  find_from-FirstKey m (suc i) (get_data_val tx p (pos i) t).1 st'' here
                    (omega arith) (extend i before e))
            ]
      ]

one_less : (j : ℕ) → j < 2 ^ 31 → add_int (pos j) (negsuc 0) ≡ ok (pos j -ℤ pos 1)
unfolding add_int
one_less j h = ground arith

-- On a page of fewer than 2 ^ 31 records find_slot_before gives the slot in front of the first record
-- with the key, and the last slot if no record has it, in one round more than there are records; the
-- order of the keys plays no part.
pub find_slot_before-FirstKey :
    {S : Type 0} (tx : TxOps S) (p : BtreePage) (n : ℕ) (keys : ℕ → Constant) (key : Constant)
    (s : S)
    → (k : Keyed tx p n keys) → n < 2 ^ 31
    → k.IsStanding s
    → (j : ℕ) × ((find_slot_before tx (suc n) p key s).0 ≡ ok (pos j -ℤ pos 1))
      × FirstKey keys key n j
      × k.IsStanding (find_slot_before tx (suc n) p key s).1
unfolding find_slot_before
find_slot_before-FirstKey tx p n keys key s k small st =
    let (j, done, first, st') =
      find_from-FirstKey tx p n keys k key small (suc n) 0 s st (omega arith) (omega arith)
        (λ j h. absurd (omega arith)) in
    (
      j,
      rw (find_slot_before, done, continue) (one_less j (omega (arith, first.inside))),
      first,
      rw (find_slot_before, done, continue) st',
    )
