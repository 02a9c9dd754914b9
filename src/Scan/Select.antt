-- ===== src/Scan/Select.antt =====
-- The rows that satisfy a predicate: src/libs/dbcore/scan/select_scan.h. The loop of `next` has a bound
-- on its rounds; a loop that reaches it has not ended.
use myc_db.Prelude.{
  ℕ, zero, suc, ◌≡◌, Bool, true, false, Result, ok, err, Op, return, continue, deadlock,
}
use myc_db.Query.Predicate.{Predicate, holds}
use myc_db.Scan.{Scan, UpdateScan}
pub mod Rows

-- What the body of the loop does on a row.
unfoldable pub on_row : {S : Type 0} → Op S Bool → Result Bool → Op S Bool
on_row again (ok true) s = (ok true, s)
on_row again (ok false) s = again s
on_row again (err e) s = (err e, s)

module _ {S : Type 0} (u : UpdateScan S) (pred : Predicate) where
  unfoldable pub select_next : ℕ → Op S Bool
  unfolding on_row holds
  select_next zero s = (err deadlock, s)
  select_next (suc rounds) s = continue (u.scan.next s) λ more. elim more [
    | false ↦ return false
    | true ↦ λ t. on_row (select_next rounds) (holds (λ f. u.scan.get_val f t) pred) t
  ]

  -- `select_scan`: every other method is the one of the scan below.
  unfoldable pub select_scan : ℕ → UpdateScan S
  unfolding select_next
  select_scan rounds = record u { scan = record u.scan { next = select_next rounds } }
