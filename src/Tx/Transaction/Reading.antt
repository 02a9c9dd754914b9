-- ===== src/Tx/Transaction/Reading.antt =====
-- One round of a loop over the records of the log.
use mathlib.Core.Option
use myc_db.Prelude.{
  ℕ, suc, ◌≡◌, refl, sym, ap, ◌∙◌, true, List, ◌∷◌, Option, none, some, Result, ok, bind,
  continue-eq-ok, ok_inj, return, some_inj,
}
use myc_db.File.Manager.{FileMgr}
use myc_db.Log.Iterator.{LogIterator, has_next, next, read_all}
use myc_db.Log.Manager.{LogStore}
use myc_db.Tx.Recovery.{LogRecord, create_log_record}
use myc_db.Tx.Transaction.{Transaction, next_record}

-- The transaction with its log and files in another state.
abbrev pub with_log : Transaction → LogStore → Transaction
with_log t s = record t { list = record t.list { bm = record t.list.bm { log = s } } }

-- One round of a loop over the log that gives records.
pub record Round (fuel : ℕ) (it : LogIterator) (fm : FileMgr) (rs : List (List ℕ)) : Type 0 where
  pub bytes : List ℕ
  pub it' : LogIterator
  pub fm' : FileMgr
  pub rest : List (List ℕ)
  pub got : next it fm ≡ (ok (bytes, it'), fm')
  pub later : (read_all fuel it' fm').0 ≡ ok (some rest)
  pub all : rs ≡ bytes ∷ rest

map-some :
    (x : List ℕ) (o : Option (List (List ℕ))) (rs : List (List ℕ))
    → Option.map (◌∷◌ x) o ≡ some rs
    → (rest : List (List ℕ)) × (o ≡ some rest) × (rs ≡ x ∷ rest)
map-some x none rs e = cc
map-some x (some rest) rs e = (rest, refl, sym (some_inj e))

pub read_all-Round :
    (fuel : ℕ) (it : LogIterator) (fm : FileMgr) (rs : List (List ℕ))
    → has_next it fm.block_size ≡ true
    → (read_all (suc fuel) it fm).0 ≡ ok (some rs)
    → Round fuel it fm rs
unfolding read_all
read_all-Round fuel it fm rs h e =
    let f = rw (h, read_all) at e in
    let ((bytes, it'), fm', got, rest_got) =
      continue-eq-ok (next it fm)
        (λ (bytes, it'). bind (read_all fuel it') λ rest. return (Option.map (◌∷◌ bytes) rest)) f in
    let (found, fm'', read, mapped) =
      continue-eq-ok (read_all fuel it' fm') (λ rest. return (Option.map (◌∷◌ bytes) rest))
        rest_got in
    let (rest, e_rest, e_rs) = map-some bytes found rs (ok_inj mapped) in
    record {
      bytes = bytes;
      it' = it';
      fm' = fm';
      rest = rest;
      got = got;
      later = ap (λ x. x.0) read ∙ ap ok e_rest;
      all = e_rs;
    }

-- Reading a record touches the files alone.
pub next_record-got :
    (t : Transaction) (it it' : LogIterator) (bytes : List ℕ) (fm' : FileMgr) (rec : LogRecord)
    → next it t.list.bm.log.fm ≡ (ok (bytes, it'), fm')
    → create_log_record bytes ≡ ok (some rec)
    → next_record it t ≡ (ok (rec, it'), with_log t (record t.list.bm.log { fm = fm' }))
unfolding next_record
next_record-got t it it' bytes fm' rec g c = rw (g, c) refl

-- The outcome of a call that returns and changes the log and the files alone.
abbrev pub OnlyReads : Transaction → Result (Unit {0}) × Transaction → Type 0
OnlyReads t r = (s : LogStore) × (r ≡ (ok tt, with_log t s))
