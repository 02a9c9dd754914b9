-- ===== src/Scan/Product.antt =====
-- Every row of one scan with every row of another: src/libs/dbcore/scan/product_scan.h.
use myc_db.Prelude.{
  ◌≡◌, Bool, true, false, ◌||◌, if◌then◌else◌, Result, ok, err, ◌>>=◌, Op, Text, bind, return,
  result, after,
}
use myc_db.Scan.{Scan}
pub mod Rows

-- A call on one of the two scans.
abbrev pub on_left : {S T A : Type 0} → Op S A → Op (S × T) A
on_left m p = ((m p.0).0, ((m p.0).1, p.1))

abbrev pub on_right : {S T A : Type 0} → Op T A → Op (S × T) A
on_right m p = ((m p.1).0, (p.0, (m p.1).1))

-- `m_left_scan->has_field(fldname) ? m_left_scan->get… : m_right_scan->get…`.
abbrev pub from_either : {A : Type 0} → Result Bool → Result A → Result A → Result A
from_either has left right = has >>= λ b. if b then left else right

module _ {S T : Type 0} (left : Scan S) (right : Scan T) where
  unfoldable pub product_first : Op (S × T) (Unit {0})
  product_first =
      bind (on_left left.before_first)
        λ _. bind (on_left left.next) λ _. on_right right.before_first

  -- The right scan is over: it starts again, and the left one goes on.
  unfoldable pub next_left : Op (S × T) Bool
  next_left = bind (on_right right.before_first) λ _.
      bind (on_right right.next)
        λ again. elim again [ true ↦ on_left left.next | false ↦ return false ]

  unfoldable pub product_next : Op (S × T) Bool
  unfolding next_left
  product_next =
      bind (on_right right.next) λ more. elim more [ true ↦ return true | false ↦ next_left ]

  unfoldable pub product_scan : Scan (S × T)
  unfolding product_first product_next
  product_scan = record {
    before_first = product_first;
    next = product_next;
    get_int = λ f p. from_either (left.has_field f p.0) (left.get_int f p.0) (right.get_int f p.1);
    get_str = λ f p. from_either (left.has_field f p.0) (left.get_str f p.0) (right.get_str f p.1);
    get_val = λ f p. from_either (left.has_field f p.0) (left.get_val f p.0) (right.get_val f p.1);
    has_field = λ f p. left.has_field f p.0 >>= λ b. if b then ok true else right.has_field f p.1;
    close = bind (on_left left.close) λ _. on_right right.close;
  }
