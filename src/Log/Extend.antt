-- ===== src/Log/Extend.antt =====
-- `append` adds a record to the log, in the current block or in a new one.
use myc_db.Prelude.{
  ℕ, suc, ◌+◌, ◌-◌, ◌*◌, ◌%◌, ◌≤◌, ◌<◌, ◌^◌, ◌≡◌, ◌≢◌, refl, ap, ◌∙◌, List, [], ◌∷◌, ◌++◌, arith,
  length, ℤ, pos, ◌+ℤ◌, ◌-ℤ◌, ltb_ℤ, true, Result, ok,
}
use native.Mathlib.Decide.{dec_lt}
use myc_db.File.Page.{Page, get_int, to_int}
use myc_db.Log.Records.{Stored}
use myc_db.Log.Manager.{LogStore, append, start_block, place_record}
use myc_db.Log.Append.{append_room, place_record_lem, rec_pos_lem}
use myc_db.Log.Invariant.{IsLog, with_record-IsLog, Fits-at}
use myc_db.Log.NewBlock.{with_block, start_block_lem, with_block-IsLog}

no_room : (n k : ℕ) → k < 2 ^ 31 → n < 8 + k → ltb_ℤ (pos n -ℤ (to_int k +ℤ pos 4)) (pos 4) ≡ true
no_room n k h lt = ground arith

-- A record that does not fit starts a block.
append_full :
    (s t : LogStore) (start n : ℕ) (r : List ℕ)
    → get_int s.lm.log_page (pos 0) ≡ ok (pos start)
    → start < 8 + length r
    → length r < 2 ^ 31
    → start_block s ≡ (ok (pos (n + (4 + length r))), t)
    → append r s ≡ place_record r (pos n) t
unfolding append
append_full s t start n r g lt h e =
    rw (g, no_room start (length r) h lt, e, rec_pos_lem n (length r) h)

-- What `append` has to show.
abbrev pub Extends : LogStore → ℕ → List (List ℕ) → List ℕ → Result ℤ × LogStore → Type 0
Extends s b rs r (res, t) =
    (k : ℕ) × (old : List (List ℕ)) × (cur : List (List ℕ)) × (res ≡ ok (s.lm.latest_lsn +ℤ pos 1))
    × IsLog t b k old cur
    × (cur ++ old ≡ r ∷ rs)

module _ (s : LogStore) (b k : ℕ) (old cur : List (List ℕ)) (r : List ℕ) (l : IsLog s b k old cur)
    (words : length r % 4 ≡ 0) where
  extend_here :
      (n : ℕ) → 4 ≤ n → l.page.start ≡ n + (4 + length r) → Extends s b (cur ++ old) r (append r s)
  extend_here n low e =
      let f = Fits-at s b k n old cur r l words low e in
      rw (append_room s n r (rw e at l.page.top) f)
        (k, old, r ∷ cur, refl, with_record-IsLog s b k n old cur r l f e, refl)

  extend_behind :
      (n : ℕ)
      → 4 ≤ n
      → b ≡ n + (4 + length r)
      → l.page.start < 8 + length r
      → cur ≢ []
      → suc (suc k) * b < 2 ^ 31
      → Extends s b (cur ++ old) r (append r s)
  extend_behind n low e full ne range =
      let new = with_block-IsLog s b k old cur l ne (omega arith) range in
      let e' = new.page.stored ∙ e in
      let f = Fits-at (with_block s b k) b (suc k) n (cur ++ old) [] r new words low e' in
      let started =
        start_block_lem s b k old cur l (omega arith) range
        ∙ ap (λ (x : ℕ). (ok (pos x), with_block s b k)) e in
      let done =
        append_full s (with_block s b k) l.page.start n r l.page.top full (omega arith) started
        ∙ place_record_lem (with_block s b k) n r f in
      rw done (
        suc k,
        cur ++ old,
        r ∷ [],
        refl,
        with_record-IsLog (with_block s b k) b (suc k) n (cur ++ old) [] r new f e',
        refl,
      )

has_records :
    (p : Page) (start b : ℕ) (rs : List (List ℕ)) → Stored p start b rs → start < b → rs ≢ []
has_records p start b [] s h e = omega arith
has_records p start b (r ∷ rs) s h e = cc

-- A record of whole words that fits in a block is added to a well-formed log below 2 ^ 31 bytes, whose
-- other records stay as they were, and gets the next number; the log stays well-formed.
pub append-IsLog :
    (s : LogStore) (b k : ℕ) (old cur : List (List ℕ)) (r : List ℕ)
    → IsLog s b k old cur
    → length r % 4 ≡ 0
    → 8 + length r ≤ b
    → suc (suc k) * b < 2 ^ 31
    → Extends s b (cur ++ old) r (append r s)
append-IsLog s b k old cur r l w room range = elim (dec_lt l.page.start (8 + length r)) [
  | yes full ↦
      let start = l.page.start in
      extend_behind s b k old cur r l w (b - (4 + length r)) (omega arith) (omega arith) full
        (has_records s.lm.log_page start b cur l.page.stored (omega arith)) range
  | no fit ↦
      extend_here s b k old cur r l w (l.page.start - (4 + length r)) (omega arith) (omega arith)
]
