-- ===== src/Tx/Transaction/Recover.antt =====
-- What `recover` leaves alone.
use myc_db.Prelude.{
  ℕ, zero, suc, ◌+◌, ◌≡◌, refl, ◌⊎◌, inl, inr, true, false, List, [], ◌∷◌, ◌++◌, some, length, ℤ,
  ok, continue, Bool-cases, subst,
}
use myc_db.Log.Iterator.{LogIterator, has_next, read_all}
use myc_db.Log.Manager.{iterator}
use myc_db.Log.Invariant.{IsLog}
use myc_db.Log.RoundTrip.{read_all-iterator}
use myc_db.Tx.Recovery.{LogRecord, operation, record_tx_num, create_log_record}
use myc_db.Tx.Transaction.{
  Transaction, Others, is_checkpoint, is_finish, is_among, recover_back, do_recover,
}
use myc_db.Tx.Transaction.Reading.{with_log, read_all-Round, next_record-got, OnlyReads}

-- The newest records, back to a checkpoint, are the ends of transactions and records of transactions
-- that have ended; `ended` are those met so far.
abbrev pub IsSettled : List ℤ → List (List ℕ) → Type 0
IsSettled ended [] = Unit {0}
IsSettled ended (bytes ∷ rs) =
    (rec : LogRecord) × (create_log_record bytes ≡ ok (some rec))
    × ((is_checkpoint (operation rec) ≡ true)
        ⊎ ((is_checkpoint (operation rec) ≡ false)
            × (((is_finish (operation rec) ≡ true) × IsSettled (record_tx_num rec ∷ ended) rs)
                ⊎ ((is_finish (operation rec) ≡ false)
                    × (is_among (record_tx_num rec) ended ≡ true)
                    × IsSettled ended rs))))

module _ (o : Others) where
  recover_back-IsSettled :
      (fuel : ℕ) (ended : List ℤ) (it : LogIterator) (t : Transaction) (rs : List (List ℕ))
      → (read_all fuel it t.list.bm.log.fm).0 ≡ ok (some rs)
      → IsSettled ended rs
      → OnlyReads t (recover_back o fuel ended it t)
  unfolding recover_back
  recover_back-IsSettled zero ended it t rs e h = unfold read_all in (cc)
  recover_back-IsSettled (suc fuel) ended it t rs e h =
      elim (Bool-cases (has_next it t.list.bm.log.fm.block_size)) [
        | inr f ↦ (t.list.bm.log, rw (recover_back, f) refl)
        | inl f ↦
            let r = read_all-Round fuel it t.list.bm.log.fm rs f e in
            let u = with_log t (record t.list.bm.log { fm = r.fm' }) in
            let (rec, read, d) = subst (IsSettled ended) r.all h in
            let n = next_record-got t it r.it' r.bytes r.fm' rec r.got read in
            elim d [
              | inl c ↦ (u.list.bm.log, rw (recover_back, f, n, continue, c) refl)
              | inr (c, inl (x, rest)) ↦
                  let (s, done) =
                    recover_back-IsSettled fuel (record_tx_num rec ∷ ended) r.it' u r.rest r.later
                      rest in
                  (s, rw (recover_back, f, n, continue, c, x) done)
              | inr (c, inr (x, y, rest)) ↦
                  let (s, done) = recover_back-IsSettled fuel ended r.it' u r.rest r.later rest in
                  (s, rw (recover_back, f, n, continue, c, x, y) done)
            ]
      ]

-- A recovery undoes nothing, and touches nothing but the log and the files, when in a well-formed
-- log every transaction with a record behind the last checkpoint has ended; one round more than
-- there are records is enough.
pub do_recover-IsSettled :
    (o : Others) (t : Transaction) (b k : ℕ) (old cur : List (List ℕ))
    → IsLog t.list.bm.log b k old cur
    → IsSettled [] (cur ++ old)
    → OnlyReads t (do_recover o (suc (length cur + length old)) t)
unfolding do_recover
do_recover-IsSettled o t b k old cur l h =
    let rounds = suc (length cur + length old) in
    let (it, made, read) = read_all-iterator t.list.bm.log b k old cur l in
    let (s, done) =
      recover_back-IsSettled o rounds [] it (with_log t (iterator t.list.bm.log).1) (cur ++ old)
        read h in
    (s, rw made done)
