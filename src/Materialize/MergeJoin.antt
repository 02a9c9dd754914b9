-- ===== src/Materialize/MergeJoin.antt =====
-- A join of two sorted scans: src/libs/dbcore/materialize/merge_join_scan.hpp. The one on the right
-- can save a position and go back to it.
use myc_db.Prelude.{
  ℕ, zero, suc, Bool, true, false, ltb_ℤ, pos, if◌then◌else◌, deadlock, Result, ok, err, ◌>>=◌, Op,
  bind, return, lift, Text, List,
}
use myc_db.Query.Constant.{Constant, int, same_constant, compare_to}
use myc_db.Scan.{Scan, UpdateScan}
use myc_db.Materialize.SortScan
use myc_db.Materialize.SortScan.{SortScan, sort_scan}
use myc_db.Scan.Product.{from_either}

-- What the join uses of a `sort_scan`.
pub record PositionScan (R : Type 0) : Type 0 where
  pub scan : Scan R
  pub save_position : Op R (Unit {0})
  pub restore_position : Op R (Unit {0})

unfoldable pub sorted_side :
    {L R : Type 0} → UpdateScan L → UpdateScan R → List Text → PositionScan (SortScan L R)
unfolding sort_scan SortScan.save_position SortScan.restore_position
sorted_side left right sort_fields = record {
  scan = sort_scan left right sort_fields;
  save_position = SortScan.save_position left right sort_fields;
  restore_position = SortScan.restore_position left right sort_fields;
}

-- The two scans with `m_join_val`.
pub record MergeJoin (L R : Type 0) : Type 0 where
  pub lhs : L
  pub rhs : R
  pub join_val : Constant

module _ {L R : Type 0} (left : Scan L) (right : PositionScan R) (fldname1 fldname2 : Text) where
  abbrev pub on_outer : {A : Type 0} → Op L A → Op (MergeJoin L R) A
  on_outer call s = ((call s.lhs).0, record s { lhs = (call s.lhs).1 })

  abbrev pub on_inner : {A : Type 0} → Op R A → Op (MergeJoin L R) A
  on_inner call s = ((call s.rhs).0, record s { rhs = (call s.rhs).1 })

  abbrev pub put_join_val : Constant → Op (MergeJoin L R) (Unit {0})
  put_join_val v s = (ok tt, record s { join_val = v })

  unfoldable pub merge_first : Op (MergeJoin L R) (Unit {0})
  merge_first = bind (on_outer left.before_first) λ _. on_inner right.scan.before_first

  -- The constructor.
  unfoldable pub make_merge_join : L → R → Result (Unit {0}) × MergeJoin L R
  unfolding merge_first
  make_merge_join l r = merge_first (record { lhs = l; rhs = r; join_val = int (pos 0) })

  -- `has_more && scan.get_val(fldname) == m_join_val`.
  unfoldable pub matches : Bool → Result Constant → Constant → Result Bool
  unfolding same_constant
  matches false val join_val = ok false
  matches true val join_val = val >>= λ v. ok (same_constant v join_val)

  abbrev pub outer_val : MergeJoin L R → Result Constant
  outer_val s = left.get_val fldname1 s.lhs

  abbrev pub inner_val : MergeJoin L R → Result Constant
  inner_val s = right.scan.get_val fldname2 s.rhs

  -- The loop of `next`, with a bound on its rounds.
  unfoldable pub merge_rows : ℕ → Bool → Bool → Op (MergeJoin L R) Bool
  unfolding compare_to
  merge_rows zero more1 more2 s = (err deadlock, s)
  merge_rows (suc rounds) false more2 s = (ok false, s)
  merge_rows (suc rounds) true false s = (ok false, s)
  merge_rows (suc rounds) true true s =
      bind (lift (outer_val s))
        (λ v. bind (lift (inner_val s)) λ w. elim (ltb_ℤ (compare_to v w) (pos 0)) [
          | true ↦ bind (on_outer left.next) λ more. merge_rows rounds more true
          | false ↦ elim (ltb_ℤ (pos 0) (compare_to v w)) [
            | true ↦ bind (on_inner right.scan.next) λ more. merge_rows rounds true more
            | false ↦
                bind (on_inner right.save_position)
                  λ _ t. bind (lift (inner_val t)) (λ u. bind (put_join_val u) λ _. return true) t
          ]
        ])
        s

  -- The right scan has left the rows with the value.
  unfoldable pub merge_left : ℕ → Bool → Op (MergeJoin L R) Bool
  unfolding matches merge_rows
  merge_left rounds more2 = bind (on_outer left.next) λ more1 s.
      bind (lift (matches more1 (outer_val s) s.join_val))
        (λ again. elim again [
          | true ↦ bind (on_inner right.restore_position) λ _. return true
          | false ↦ merge_rows rounds more1 more2
        ])
        s

  unfoldable pub merge_next : ℕ → Op (MergeJoin L R) Bool
  unfolding matches merge_left
  merge_next rounds = bind (on_inner right.scan.next) λ more2 s.
      bind (lift (matches more2 (inner_val s) s.join_val))
        (λ again. elim again [ true ↦ return true | false ↦ merge_left rounds more2 ]) s

  abbrev pub from_outer : {A : Type 0} → Text → Result A → Result A → MergeJoin L R → Result A
  from_outer f get_l get_r s = from_either (left.has_field f s.lhs) get_l get_r

  unfoldable pub merge_join_scan : ℕ → Scan (MergeJoin L R)
  unfolding merge_first merge_next
  merge_join_scan rounds = record {
    before_first = merge_first;
    next = merge_next rounds;
    get_int = λ f s. from_outer f (left.get_int f s.lhs) (right.scan.get_int f s.rhs) s;
    get_str = λ f s. from_outer f (left.get_str f s.lhs) (right.scan.get_str f s.rhs) s;
    get_val = λ f s. from_outer f (left.get_val f s.lhs) (right.scan.get_val f s.rhs) s;
    has_field =
        λ f s. left.has_field f s.lhs >>= λ b. if b then ok true else right.scan.has_field f s.rhs;
    close = bind (on_outer left.close) λ _. on_inner right.scan.close;
  }
