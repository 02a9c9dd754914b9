-- ===== src/Tx/Transaction/Rollback.antt =====
-- What `rollback` leaves alone.
use myc_db.Prelude.{
  ℕ, zero, suc, ◌+◌, ◌*◌, ◌%◌, ◌^◌, ◌≤◌, ◌<◌, ◌≡◌, length-append, negsuc, refl, sym, ap, ◌∙◌, ◌⊎◌,
  inl, inr, true, false, List, [], ◌∷◌, ◌++◌, some, length, ℤ, ◌==ℤ◌, ok, continue, Bool-cases,
  subst,
}
use myc_db.Tx.Recovery.Stored.{write_to_log, record_size, IsWellSized, write_to_log-IsLog}
use myc_db.Log.Iterator.{LogIterator, has_next, read_all}
use myc_db.Log.Manager.{iterator}
use myc_db.Log.Invariant.{IsLog}
use myc_db.Log.RoundTrip.{read_all-iterator}
use myc_db.Tx.Recovery.{
  LogRecord, checkpoint_record, start_record, operation, record_tx_num, create_log_record,
}
use myc_db.Tx.Transaction.{Transaction, Others, next_record, undo_back, is_start, do_rollback}
use myc_db.Tx.Transaction.Reading.{with_log, read_all-Round, next_record-got, OnlyReads}

-- From the newest record back to the start of the transaction every record is another one's.
abbrev pub IsOthers : ℤ → List (List ℕ) → Type 0
IsOthers tx [] = Unit {0}
IsOthers tx (bytes ∷ rs) =
    (rec : LogRecord) × (create_log_record bytes ≡ ok (some rec))
    × (((record_tx_num rec ==ℤ tx ≡ false) × IsOthers tx rs)
        ⊎ ((rec ≡ start_record tx) × (tx ==ℤ tx ≡ true)))

module _ (o : Others) where
  undo_back-step :
      (fuel : ℕ) (it it' : LogIterator) (t u : Transaction) (rec : LogRecord)
      → has_next it t.list.bm.log.fm.block_size ≡ true
      → next_record it t ≡ (ok (rec, it'), u)
      → (record_tx_num rec ==ℤ u.tx_num) ≡ false
      → undo_back o (suc fuel) it t ≡ undo_back o fuel it' u
  unfolding undo_back
  undo_back-step fuel it it' t u rec h n f = rw (undo_back, h, n, continue, f) refl

  undo_back-stop :
      (fuel : ℕ) (it it' : LogIterator) (t u : Transaction) (rec : LogRecord)
      → has_next it t.list.bm.log.fm.block_size ≡ true
      → next_record it t ≡ (ok (rec, it'), u)
      → rec ≡ start_record u.tx_num
      → (u.tx_num ==ℤ u.tx_num) ≡ true
      → undo_back o (suc fuel) it t ≡ (ok tt, u)
  unfolding undo_back operation record_tx_num is_start
  undo_back-stop fuel it it' t u rec h n e f =
      let same : (record_tx_num rec ==ℤ u.tx_num) ≡ true = rw e f in
      let start : is_start (operation rec) ≡ true = rw e refl in
      rw (undo_back, h, n, continue, same, start) refl

  undo_back-IsOthers :
      (fuel : ℕ) (it : LogIterator) (t : Transaction) (rs : List (List ℕ))
      → (read_all fuel it t.list.bm.log.fm).0 ≡ ok (some rs)
      → IsOthers t.tx_num rs
      → OnlyReads t (undo_back o fuel it t)
  unfolding undo_back
  undo_back-IsOthers zero it t rs e h = unfold read_all in (cc)
  undo_back-IsOthers (suc fuel) it t rs e h =
      elim (Bool-cases (has_next it t.list.bm.log.fm.block_size)) [
        | inr f ↦ (t.list.bm.log, rw (undo_back, f) refl)
        | inl f ↦
            let r = read_all-Round fuel it t.list.bm.log.fm rs f e in
            let u = with_log t (record t.list.bm.log { fm = r.fm' }) in
            let (rec, read, d) = subst (IsOthers t.tx_num) r.all h in
            let n = next_record-got t it r.it' r.bytes r.fm' rec r.got read in
            elim d [
              | inl (other, rest) ↦
                  let (s, done) = undo_back-IsOthers fuel r.it' u r.rest r.later rest in
                  (s, undo_back-step fuel it r.it' t u rec f n other ∙ done)
              | inr (mine, same) ↦
                  (u.list.bm.log, undo_back-stop fuel it r.it' t u rec f n mine same)
            ]
      ]

-- A rollback touches nothing but the log and the files when the records of a well-formed log,
-- back to the start of the transaction, are those of others; one round more than there are
-- records is enough.
pub do_rollback-IsOthers :
    (o : Others) (t : Transaction) (b k : ℕ) (old cur : List (List ℕ))
    → IsLog t.list.bm.log b k old cur
    → IsOthers t.tx_num (cur ++ old)
    → OnlyReads t (do_rollback o (suc (length cur + length old)) t)
unfolding do_rollback
do_rollback-IsOthers o t b k old cur l h =
    let rounds = suc (length cur + length old) in
    let (it, made, read) = read_all-iterator t.list.bm.log b k old cur l in
    let (s, done) =
      undo_back-IsOthers o rounds it (with_log t (iterator t.list.bm.log).1) (cur ++ old) read h in
    (s, rw made done)

-- Every record reads back as a checkpoint.
abbrev pub IsBlank : List (List ℕ) → Type 0
IsBlank [] = Unit {0}
IsBlank (bytes ∷ rs) = (create_log_record bytes ≡ ok (some checkpoint_record)) × IsBlank rs

IsBlank-IsOthers :
    (tx : ℤ) (rs : List (List ℕ)) → (negsuc 0 ==ℤ tx) ≡ false → IsBlank rs → IsOthers tx rs
unfolding record_tx_num
IsBlank-IsOthers tx [] h b = tt
IsBlank-IsOthers tx (bytes ∷ rs) h (c, b) =
    (checkpoint_record, c, inl (h, IsBlank-IsOthers tx rs h b))

-- A record of int numbers and whole words that fits in a block is written by write_to_log to a
-- well-formed log below 2 ^ 31 bytes that was written so: a rollback of a transaction whose
-- number is not -1 then finds none of its records and touches nothing but the log and the files.
pub do_rollback-write_to_log :
    (o : Others) (t : Transaction) (r : LogRecord) (b k : ℕ) (old cur : List (List ℕ))
    → IsLog t.list.bm.log b k old cur
    → IsBlank (cur ++ old)
    → IsWellSized r
    → record_size r % 4 ≡ 0
    → 8 + record_size r ≤ b
    → suc (suc k) * b < 2 ^ 31
    → (negsuc 0 ==ℤ t.tx_num) ≡ false
    → let u = with_log t (write_to_log r t.list.bm.log).1 in
      OnlyReads u (do_rollback o (suc (suc (length (cur ++ old)))) u)
do_rollback-write_to_log o t r b k old cur l blank w words room range other =
    let (bytes, (k', old', cur', res, l', all), c) =
      write_to_log-IsLog r t.list.bm.log b k old cur l w words room range in
    let u = with_log t (write_to_log r t.list.bm.log).1 in
    let still : IsBlank (cur' ++ old') = subst IsBlank (sym all) (c, blank) in
    let count : length cur' + length old' ≡ suc (length (cur ++ old)) =
      sym (length-append cur' old') ∙ ap length all in
    subst (λ n. OnlyReads u (do_rollback o (suc n) u)) count
      (do_rollback-IsOthers o u b k' old' cur' l'
        (IsBlank-IsOthers t.tx_num (cur' ++ old') other still))
