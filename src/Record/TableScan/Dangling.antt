-- ===== src/Record/TableScan/Dangling.antt =====
-- What a table scan does with the block that its page refers to: src/libs/dbcore/record/table_scan.cpp.
use myc_db.Prelude.{
  subst, ℕ, ◌≡◌, refl, ap, Bool, none, some, ℤ, pos, negsuc, ◌==ℤ◌, undefined, Result, ok, err, Op,
  continue, Text, ◌++◌, err_inj, return, true, false, if◌then◌else◌, suc, sym, ◌∙◌, some_inj,
  in_int, ◌*ℤ◌,
}
use myc_db.File.Page.{add_int}
use myc_db.File.Manager.{mul_int}
use myc_db.Record.Schema.{RecordId}
use myc_db.Record.Layout.{Layout}
use myc_db.Record.RecordPage.{
  RecordPage, on_block, make_record_page, used, empty, format, next_after, insert_after,
  search_after, is_valid_slot, calculate_offset, search_from,
}
use myc_db.Record.RecordPage.Search.{search_after_lem}
use myc_db.Record.TableScan.{
  TableScan, on_tx, on_page, step_slot, block_number, left_behind, close, move_to, move_to_block,
  move_to_new_block, table_first, table_next, table_insert, table_rid, move_to_rid, make_table_scan,
  table_ext,
}
use myc_db.Tx.Access.{TxOps}

-- The scan stands before the first slot of a page whose block is gone.
pub record IsDangling {S : Type 0} (t : TableScan S) : Type 0 where
  pub page : RecordPage
  pub there : t.rec_page ≡ some page
  pub gone : page.blk ≡ none
  pub before : t.curr_slot ≡ negsuc 0

-- What holds after the last step of a call that returned.
after-last :
    {A T : Type 0} (Q : T → Type 0) (r : Result A × T) (f : A → Op T (Unit {0})) (u : T)
    → ((a : A) (v : T) → f a v ≡ (ok tt, u) → Q u)
    → continue r f ≡ (ok tt, u)
    → Q u
after-last Q (ok a, v) f u h e = h a v e
after-last Q (err x, v) f u h e = cc

-- The same for a call on the transaction, which leaves the rest of the scan as it is.
after-on_tx :
    {A S : Type 0} (Q : TableScan S → Type 0) (t : TableScan S) (r : Result A) (s : S)
    (f : A → Op (TableScan S) (Unit {0})) (u : TableScan S)
    → ((a : A) → f a (record t { base = s }) ≡ (ok tt, u) → Q u)
    → continue (r, record t { base = s }) f ≡ (ok tt, u)
    → Q u
after-on_tx Q t (ok a) s f u h e = h a e
after-on_tx Q t (err x) s f u h e = cc

either-way :
    {A T : Type 0} (Q : A → Type 0) (b : Bool) (m n : T → A) (t : T)
    → Q (m t)
    → Q (n t)
    → Q ((if b then m else n) t)
either-way Q true m n t h k = h
either-way Q false m n t h k = k

still_undefined :
    {A B T : Type 0} (r : Result A × T) (f : A → Op T B)
    → r.0 ≡ err undefined
    → (continue r f).0 ≡ err undefined
still_undefined (ok a, t) f e = cc
still_undefined (err x, t) f e = ap err (err_inj e)

-- A call on the product of two numbers fails if it fails on every number.
times-gone :
    {A S : Type 0} (a b : ℤ) (f : ℤ → Op S A) (s : S)
    → ((i : ℤ) → (f i s).0 ≡ err undefined)
    → (continue (mul_int a b, s) f).0 ≡ err undefined
unfolding mul_int
times-gone a b f s h =
    elim (in_int (a *ℤ b))
      as (λ c. (continue (if c then ok (a *ℤ b) else err undefined, s) f).0 ≡ err undefined) [
        | true ↦ h (a *ℤ b)
        | false ↦ refl
      ]

first_slot : add_int (negsuc 0) (pos 1) ≡ ok (pos 0)
unfolding add_int
first_slot = refl

landed :
    {S : Type 0} (t u : TableScan S) (p : RecordPage)
    → ◌≡◌ {A = Result (Unit {0}) × TableScan S}
        (ok tt, record t { rec_page = some (left_behind p); curr_slot = negsuc 0 })
        (ok tt, u)
    → IsDangling u
landed t u p e =
    subst IsDangling (ap (λ x. x.1) e)
      (record { page = left_behind p; there = refl; gone = refl; before = refl })

module _ {S : Type 0} (tx : TxOps S) (rounds : ℕ) where
  move_to_block-IsDangling :
      (t u : TableScan S) (n : ℤ) → move_to_block tx rounds n t ≡ (ok tt, u) → IsDangling u
  unfolding move_to_block move_to
  move_to_block-IsDangling t u n = after-last IsDangling (close tx rounds t) _ u (λ a v.
      after-last IsDangling
        (on_tx (make_record_page tx (some (record { filename = t.filename; blk_num = n })) v.layout)
          v)
        _ u (λ p w. landed w u p))

  move_to_new_block-IsDangling :
      (t u : TableScan S) → move_to_new_block tx rounds t ≡ (ok tt, u) → IsDangling u
  unfolding move_to_new_block
  move_to_new_block-IsDangling t u = after-last IsDangling (close tx rounds t) _ u (λ a v.
      after-last IsDangling (on_tx (tx.append v.filename) v) _ u (λ blk w.
        after-last IsDangling (on_tx (make_record_page tx (some blk) w.layout) w) _ u (λ p x.
          after-on_tx IsDangling (record x { rec_page = some (left_behind p) })
            (format tx rounds p x.base).0 _ _ u
            (λ y. landed (record x { base = (format tx rounds p x.base).1 }) u p))))

  close-IsDangling : (t : TableScan S) → IsDangling t → (close tx rounds t).0 ≡ err undefined
  unfolding close
  close-IsDangling t d = rw (close, d.there, d.gone) refl

  on_page-gone :
      {A : Type 0} (call : RecordPage → Op S A) (t : TableScan S)
      → (d : IsDangling t) → (call d.page t.base).0 ≡ err undefined
      → (on_page call t).0 ≡ err undefined
  on_page-gone call t d h = rw d.there h

  search_from-gone :
      (p : RecordPage) (flag : ℤ) (s : S)
      → p.blk ≡ none
      → is_valid_slot p.layout (tx.block_size s) (pos 0) ≡ ok true
      → (search_from tx p flag (suc rounds) (pos 0) s).0 ≡ err undefined
  unfolding search_from calculate_offset
  search_from-gone p flag s h k =
      rw (search_from, k, calculate_offset, h)
        (times-gone (pos 0) p.layout.slot_size _ s (λ i. refl))

  search-gone :
      (p : RecordPage) (slot flag : ℤ) (s : S)
      → p.blk ≡ none
      → slot ≡ negsuc 0
      → is_valid_slot p.layout (tx.block_size s) (pos 0) ≡ ok true
      → (search_after tx (suc rounds) p slot flag s).0 ≡ err undefined
  search-gone p slot flag s h e k =
      rw
        (search_after_lem tx p slot flag (suc rounds) 0 s
          (ap (λ x. add_int x (pos 1)) e ∙ first_slot))
        (search_from-gone p flag s h k)

  step_slot-gone :
      (search : RecordPage → ℤ → Op S ℤ) (t : TableScan S)
      → (d : IsDangling t) → (search d.page t.curr_slot t.base).0 ≡ err undefined
      → (step_slot tx rounds search t).0 ≡ err undefined
  step_slot-gone search t d h = still_undefined _ _ (on_page-gone (λ p. search p t.curr_slot) t d h)

  block_number-gone :
      (t : TableScan S) → IsDangling t → (block_number tx rounds t).0 ≡ err undefined
  block_number-gone t d =
      on_page-gone (λ p. on_block tx p λ blk. return blk.blk_num) t d (rw d.gone refl)

  make_table_scan-IsDangling :
      (table : Text) (l : Layout) (s : S) (t : TableScan S)
      → make_table_scan tx rounds table l s ≡ (ok tt, t)
      → IsDangling t
  unfolding make_table_scan
  make_table_scan-IsDangling table l s t =
      after-last IsDangling
        (on_tx (tx.size (table ++ table_ext)) (record {
          base = s;
          layout = l;
          filename = table ++ table_ext;
          rec_page = none;
          curr_slot = negsuc 0;
        }))
        _ t
        (λ n v.
          either-way (λ c. c ≡ (ok tt, t) → IsDangling t) (n ==ℤ pos 0)
            (move_to_new_block tx rounds) (move_to_block tx rounds (pos 0)) v
            (move_to_new_block-IsDangling v t) (move_to_block-IsDangling v t (pos 0)))

-- The constructor leaves a page whose block is gone: when it has returned, the first, the next
-- and the inserted record, the identifier of the record, the move to one, and the end of the scan
-- are all a use of memory that is no longer there, where a slot fits in a block: a page with
-- no slot does not look at its block.
pub make_table_scan-undefined :
    {S : Type 0} (tx : TxOps S) (rounds blocks : ℕ) (table : Text) (l : Layout) (s : S)
    (t : TableScan S) (p : RecordPage) (rid : RecordId)
    → make_table_scan tx (suc rounds) table l s ≡ (ok tt, t)
    → t.rec_page ≡ some p
    → is_valid_slot p.layout (tx.block_size t.base) (pos 0) ≡ ok true
    → ((table_first tx (suc rounds) t).0 ≡ err undefined)
      × ((table_next tx (suc rounds) blocks t).0 ≡ err undefined)
      × ((table_insert tx (suc rounds) blocks t).0 ≡ err undefined)
      × ((table_rid tx (suc rounds) t).0 ≡ err undefined)
      × ((move_to_rid tx (suc rounds) rid t).0 ≡ err undefined)
      × ((close tx (suc rounds) t).0 ≡ err undefined)
unfolding table_first table_next table_insert table_rid move_to_rid move_to_block move_to next_after
    insert_after
make_table_scan-undefined tx rounds blocks table l s t p rid e there fits =
    let d = make_table_scan-IsDangling tx (suc rounds) table l s t e in
    let closed = close-IsDangling tx (suc rounds) t d in
    let page : p ≡ d.page = some_inj (sym there ∙ d.there) in
    let fits' : is_valid_slot d.page.layout (tx.block_size t.base) (pos 0) ≡ ok true =
      subst (λ q. is_valid_slot q.layout (tx.block_size t.base) (pos 0) ≡ ok true) page fits in
    (
      still_undefined (close tx (suc rounds) t) _ closed,
      still_undefined _ _ (
          step_slot-gone tx (suc rounds) (next_after tx (suc rounds)) t d
            (search-gone tx rounds d.page t.curr_slot used t.base d.gone d.before fits')),
      still_undefined _ _ (
          step_slot-gone tx (suc rounds) (insert_after tx (suc rounds)) t d (
            still_undefined _ _
              (search-gone tx rounds d.page t.curr_slot empty t.base d.gone d.before fits'))),
      still_undefined _ _ (block_number-gone tx (suc rounds) t d),
      still_undefined (close tx (suc rounds) t) _ closed,
      closed,
    )
