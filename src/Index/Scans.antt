-- ===== src/Index/Scans.antt =====
-- Scans through an index: src/libs/dbcore/index/scan. The state is the one of the table with the one
-- of the index, and for a join the one of the scan on the left before them.
pub mod Select
pub mod Join
use myc_db.Prelude.{
  ℕ, zero, suc, Bool, true, false, if◌then◌else◌, deadlock, Result, ok, err, ◌>>=◌, Op, bind,
  return, lift, Text,
}
use myc_db.Query.Constant.{Constant}
use myc_db.Scan.{Scan, UpdateScan}
use myc_db.Scan.Product.{on_left, on_right, from_either}
use myc_db.Index.Contract.{Index}

-- `m_ts->move_to_rid(m_idx->get_data_rid())`.
abbrev pub follow : {T S : Type 0} → UpdateScan T → Index S → Op (T × S) (Unit {0})
follow u x = bind (on_right x.get_data_rid) λ rid. on_left (u.move_to_rid rid)

module _ {T S : Type 0} (u : UpdateScan T) (x : Index S) (val : Constant) where
  unfoldable pub index_select_next : Op (T × S) Bool
  index_select_next =
      bind (on_right x.next)
        λ more. elim more [ true ↦ bind (follow u x) λ _. return true | false ↦ return false ]

  unfoldable pub index_select_scan : Scan (T × S)
  unfolding index_select_next
  index_select_scan = record {
    before_first = on_right (x.before_first val);
    next = index_select_next;
    get_int = λ f p. u.scan.get_int f p.0;
    get_str = λ f p. u.scan.get_str f p.0;
    get_val = λ f p. u.scan.get_val f p.0;
    has_field = λ f p. u.scan.has_field f p.0;
    close = bind (on_right x.close) λ _. on_left u.scan.close;
  }

module _ {L T S : Type 0} (left : Scan L) (x : Index S) (join_field : Text) (u : UpdateScan T) where
  unfoldable pub reset_index : Op (L × (T × S)) (Unit {0})
  reset_index p =
      bind (lift (left.get_val join_field p.0)) (λ key. on_right (on_right (x.before_first key))) p

  unfoldable pub index_join_first : Op (L × (T × S)) (Unit {0})
  unfolding reset_index
  index_join_first = bind (on_left left.before_first) λ _. bind (on_left left.next) λ _. reset_index

  -- The loop of `next`, with a bound on its rounds.
  unfoldable pub index_join_next : ℕ → Op (L × (T × S)) Bool
  unfolding reset_index
  index_join_next zero p = (err deadlock, p)
  index_join_next (suc rounds) p =
      bind (on_right (on_right x.next))
        (λ more. elim more [
          | true ↦ bind (on_right (follow u x)) λ _. return true
          | false ↦ bind (on_left left.next) λ again. elim again [
            | false ↦ return false
            | true ↦ bind reset_index λ _. index_join_next rounds
          ]
        ])
        p

  unfoldable pub index_join_scan : ℕ → Scan (L × (T × S))
  unfolding index_join_first index_join_next
  index_join_scan rounds = record {
    before_first = index_join_first;
    next = index_join_next rounds;
    get_int =
        λ f p. from_either (u.scan.has_field f p.1.0) (u.scan.get_int f p.1.0) (left.get_int f p.0);
    get_str =
        λ f p. from_either (u.scan.has_field f p.1.0) (u.scan.get_str f p.1.0) (left.get_str f p.0);
    get_val =
        λ f p. from_either (u.scan.has_field f p.1.0) (u.scan.get_val f p.1.0) (left.get_val f p.0);
    has_field =
        λ f p. u.scan.has_field f p.1.0 >>= λ b. if b then ok true else left.has_field f p.0;
    close =
        bind (on_left left.close)
          λ _. bind (on_right (on_right x.close)) λ _. on_right (on_left u.scan.close);
  }
