-- ===== src/Index/BtreeLeaf/Moves.antt =====
-- The searches for the place where a full leaf of a B-tree is split: src/libs/dbcore/index/btree/bt_leaf.h.
use myc_db.Prelude.{
  ℕ, zero, suc, ◌+◌, ◌-◌, ◌≤◌, ◌<◌, ◌^◌, ◌≡◌, refl, ap, subst, inl, inr, arith, true, false, ℤ, pos,
  negsuc, Result, ok, continue, Bool-cases, same_text→eq, same_text_refl,
}
use native.Mathlib.Decide.{dec_lt}
use myc_db.File.Page.{add_int}
use myc_db.Query.Constant.{Constant, int, str, same_constant}
use myc_db.Index.BtreePage.{BtreePage, get_data_val}
use myc_db.Index.BtreePage.Search.{Keyed}
use myc_db.Index.BtreeLeaf.{move_right, move_left}
use myc_db.Tx.Access.{TxOps}

pub same_constant→eq : (a b : Constant) → same_constant a b ≡ true → a ≡ b
unfolding same_constant
same_constant→eq (int a) (int b) h = ground arith
same_constant→eq (str s) (str t) h = ap str (same_text→eq s t h)
same_constant→eq (int a) (str t) h = cc
same_constant→eq (str s) (int b) h = cc

pub same_constant_refl : (a : Constant) → same_constant a a ≡ true
unfolding same_constant
same_constant_refl (int a) = ground arith
same_constant_refl (str s) = same_text_refl s

up : (i : ℕ) → suc i < 2 ^ 31 → add_int (pos i) (pos 1) ≡ ok (pos (suc i))
unfolding add_int
up i h = ground arith

down : (i : ℕ) → suc i < 2 ^ 31 → add_int (pos (suc i)) (negsuc 0) ≡ ok (pos i)
unfolding add_int
down i h = ground arith

module _ {S : Type 0} (tx : TxOps S) (p : BtreePage) (n : ℕ) (keys : ℕ → Constant)
    (k : Keyed tx p n keys) (small : n < 2 ^ 31) (key : Constant) where
  -- The end of a search to the right or to the left.
  pub record Ends (r : Result ℤ × S) (j : ℕ) : Type 0 where
    pub done : r.0 ≡ ok (pos j)
    pub standing : k.IsStanding r.1

  right_stop :
      (m i : ℕ) (s : S)
      → (get_data_val tx p (pos i) s).0 ≡ ok (keys i)
      → same_constant (keys i) key ≡ false
      → move_right tx p key (suc m) (pos i) s ≡ (ok (pos i), (get_data_val tx p (pos i) s).1)
  unfolding move_right
  right_stop m i s v e = rw (move_right, continue, v, e) refl

  right_on :
      (m i : ℕ) (s : S)
      → (get_data_val tx p (pos i) s).0 ≡ ok (keys i)
      → same_constant (keys i) key ≡ true
      → suc i < 2 ^ 31
      → move_right tx p key (suc m) (pos i) s
        ≡ move_right tx p key m (pos (suc i)) (get_data_val tx p (pos i) s).1
  unfolding move_right
  right_on m i s v e h = rw (move_right, continue, v, e, up i h) refl

  not_last :
      (i : ℕ)
      → i < n
      → same_constant (keys i) key ≡ true
      → same_constant (keys (n - 1)) key ≡ false
      → suc i < n
  not_last i h d e = elim (dec_lt (suc i) n) [
    | yes l ↦ l
    | no ne ↦
        let z : i ≡ n - 1 = omega arith in
        let d' = subst (λ x. same_constant (keys x) key ≡ true) z d in cc
  ]

  -- The search to the right ends at the first other key, with this one in front of it.
  pub record First (i j : ℕ) : Type 0 where
    pub inside : j < n
    pub moved : i ≤ j
    pub differs : same_constant (keys j) key ≡ false
    pub before : (x : ℕ) → i ≤ x → x < j → same_constant (keys x) key ≡ true

  pub move_right-First :
      (m i : ℕ) (s : S)
      → k.IsStanding s
      → i < n
      → n ≤ i + m
      → same_constant (keys (n - 1)) key ≡ false
      → (j : ℕ) × Ends (move_right tx p key m (pos i) s) j × First i j
  move_right-First zero i s st h l e = absurd (omega arith)
  move_right-First (suc m) i s st h l e =
      let (value, st') = k.key s i st h in
      elim (Bool-cases (same_constant (keys i) key)) [
        | inr d ↦ rw (right_stop m i s value d) (
          i,
          record { done = refl; standing = st' },
          record {
            inside = h;
            moved = omega arith;
            differs = d;
            before = λ x a b. absurd (omega arith);
          },
        )
        | inl d ↦
            let next = not_last i h d e in
            let (j, ends, f) = move_right-First m (suc i) _ st' next (omega arith) e in
            rw (right_on m i s value d (omega arith)) (
              j,
              ends,
              record {
                inside = f.inside;
                moved = omega (arith, f.moved);
                differs = f.differs;
                before = λ x a b. elim (dec_lt i x) [
                  | yes l ↦ f.before x l b
                  | no ne ↦
                      let z : i ≡ x = omega arith in
                      subst (λ y. same_constant (keys y) key ≡ true) z d
                ];
              },
            )
      ]

  left_stop :
      (m i : ℕ) (s : S)
      → (get_data_val tx p (pos i) s).0 ≡ ok (keys i)
      → same_constant (keys i) key ≡ false
      → suc i < 2 ^ 31
      → move_left tx p key (suc m) (pos (suc i)) s
        ≡ (ok (pos (suc i)), (get_data_val tx p (pos i) s).1)
  unfolding move_left
  left_stop m i s v e h = rw (move_left, down i h, continue, v, e) refl

  left_on :
      (m i : ℕ) (s : S)
      → (get_data_val tx p (pos i) s).0 ≡ ok (keys i)
      → same_constant (keys i) key ≡ true
      → suc i < 2 ^ 31
      → move_left tx p key (suc m) (pos (suc i)) s
        ≡ move_left tx p key m (pos i) (get_data_val tx p (pos i) s).1
  unfolding move_left
  left_on m i s v e h = rw (move_left, down i h, continue, v, e) refl

  -- The search to the left ends behind the first other key.
  pub move_left-First :
      (m i : ℕ) (s : S)
      → k.IsStanding s
      → i < n
      → i ≤ m
      → same_constant (keys i) key ≡ true
      → same_constant (keys 0) key ≡ false
      → (j : ℕ) × Ends (move_left tx p key m (pos i) s) (suc j)
        × (suc j < n)
        × (same_constant (keys (suc j)) key ≡ true)
        × (same_constant (keys j) key ≡ false)
  move_left-First m zero s st h l d e = cc
  move_left-First zero (suc i) s st h l d e = absurd (omega arith)
  move_left-First (suc m) (suc i) s st h l d e =
      let (value, st') = k.key s i st (omega arith) in
      elim (Bool-cases (same_constant (keys i) key)) [
        | inr c ↦
            rw (left_stop m i s value c (omega arith))
              (i, record { done = refl; standing = st' }, h, d, c)
        | inl c ↦
            rw (left_on m i s value c (omega arith))
              (move_left-First m i _ st' (omega arith) (omega arith) c e)
      ]
