-- ===== src/Record/TableScan.antt =====
-- A scan over the blocks of a table: src/libs/dbcore/record/table_scan.{h,cpp}, over the methods of a
-- transaction. The page of the current block refers to a block identifier that is local to the call
-- which made the page, so it is gone when that call returns.
pub mod Dangling
use myc_db.Prelude.{
  ℕ, zero, suc, Bool, true, false, ◌++◌, Option, none, some, if◌then◌else◌, ℤ, pos, negsuc, ◌-ℤ◌,
  ◌==ℤ◌, ltb_ℤ, undefined, deadlock, Result, ok, err, ◌>>=◌, Op, bind, continue, return, throw,
  lift, Text, text,
}
use myc_db.File.Page.{add_int}
use myc_db.File.Block.{BlockId}
use myc_db.Query.Constant.{Constant, int, str, as_int, as_str}
use myc_db.Record.Schema.{RecordId, integer, varchar, field_type, has_field}
use myc_db.Record.Layout.{Layout}
use myc_db.Record.RecordPage.{
  RecordPage, make_record_page, page_get_int, page_get_str, page_set_int, page_set_str, delete_slot,
  format, next_after, insert_after, on_block,
}
use myc_db.Scan.{Scan, UpdateScan}
use myc_db.Tx.Access.{TxOps}

-- `config::table_ext`.
abbrev pub table_ext : Text
table_ext = text ".tbl"

-- The scan, and the transaction that it shares.
pub record TableScan (S : Type 0) : Type 0 where
  pub base : S
  pub layout : Layout
  pub filename : Text
  pub rec_page : Option RecordPage
  pub curr_slot : ℤ

abbrev pub on_tx : {A S : Type 0} → Op S A → Op (TableScan S) A
on_tx call t = ((call t.base).0, record t { base = (call t.base).1 })

abbrev pub put_slot : {S : Type 0} → ℤ → Op (TableScan S) (Unit {0})
put_slot i t = (ok tt, record t { curr_slot = i })

abbrev pub put_rec_page : {S : Type 0} → Option RecordPage → Op (TableScan S) (Unit {0})
put_rec_page p t = (ok tt, record t { rec_page = p })

-- A use of `m_rec_page`, which may be a null pointer.
abbrev pub on_page : {A S : Type 0} → (RecordPage → Op S A) → Op (TableScan S) A
on_page call t = elim t.rec_page [ none ↦ (err undefined, t) | some p ↦ on_tx (call p) t ]

-- The page after the call that made it has returned.
abbrev pub left_behind : RecordPage → RecordPage
left_behind p = record p { blk = none }

module _ {S : Type 0} (tx : TxOps S) (rounds : ℕ) where
  abbrev pub block_number : Op (TableScan S) ℤ
  block_number = on_page λ p. on_block tx p λ blk. return blk.blk_num

  unfoldable pub close : Op (TableScan S) (Unit {0})
  close t = elim t.rec_page [
    | none ↦ (ok tt, t)
    | some p ↦ bind (on_tx (on_block tx p tx.unpin)) (λ _. put_rec_page none) t
  ]

  unfoldable pub move_to : BlockId → ℤ → Op (TableScan S) (Unit {0})
  unfolding close make_record_page
  move_to blk slot = bind close λ _ t.
      bind (on_tx (make_record_page tx (some blk) t.layout))
        (λ p. bind (put_rec_page (some (left_behind p))) λ _. put_slot slot) t

  unfoldable pub move_to_block : ℤ → Op (TableScan S) (Unit {0})
  unfolding move_to
  move_to_block blk_num t =
      move_to (record { filename = t.filename; blk_num = blk_num }) (negsuc 0) t

  unfoldable pub table_first : Op (TableScan S) (Unit {0})
  unfolding move_to_block
  table_first = move_to_block (pos 0)

  unfoldable pub move_to_new_block : Op (TableScan S) (Unit {0})
  unfolding close make_record_page format
  move_to_new_block = bind close λ _ t.
      bind (on_tx (tx.append t.filename))
        (λ blk u.
          bind (on_tx (make_record_page tx (some blk) u.layout))
            (λ p.
              bind (put_rec_page (some (left_behind p)))
                λ _. bind (on_tx (format tx rounds p)) λ _. put_slot (negsuc 0))
            u)
        t

  unfoldable pub at_last_block : Op (TableScan S) Bool
  at_last_block =
      bind block_number
        λ n t. bind (on_tx (tx.size t.filename)) (λ m. return (n ==ℤ (m -ℤ pos 1))) t

  -- `m_curr_slot = m_rec_page->next_after(m_curr_slot)`, and the same for `insert_after`.
  abbrev pub step_slot : (RecordPage → ℤ → Op S ℤ) → Op (TableScan S) ℤ
  step_slot search t =
      bind (on_page λ p. search p t.curr_slot) (λ i. bind (put_slot i) λ _. return i) t

  abbrev pub go_on : Op (TableScan S) (Unit {0})
  go_on = bind block_number λ n. bind (lift (add_int n (pos 1))) move_to_block

  -- The loop of `next`, with a bound on the blocks.
  unfoldable pub next_from : ℕ → ℤ → Op (TableScan S) Bool
  unfolding at_last_block move_to_block next_after add_int
  next_from zero slot t = (err deadlock, t)
  next_from (suc blocks) slot t = elim (ltb_ℤ slot (pos 0)) [
    | false ↦ (ok true, t)
    | true ↦
        bind at_last_block
          (λ last. elim last [
            | true ↦ return false
            | false ↦
                bind go_on λ _. bind (step_slot (next_after tx rounds)) λ i. next_from blocks i
          ])
          t
  ]

  unfoldable pub table_next : ℕ → Op (TableScan S) Bool
  unfolding next_from next_after
  table_next blocks = bind (step_slot (next_after tx rounds)) λ i. next_from blocks i

  -- The loop of `insert`.
  unfoldable pub insert_from : ℕ → ℤ → Op (TableScan S) (Unit {0})
  unfolding at_last_block move_to_block move_to_new_block insert_after add_int
  insert_from zero slot t = (err deadlock, t)
  insert_from (suc blocks) slot t = elim (ltb_ℤ slot (pos 0)) [
    | false ↦ (ok tt, t)
    | true ↦
        bind at_last_block
          (λ last.
            bind (elim last [ true ↦ move_to_new_block | false ↦ go_on ])
              λ _. bind (step_slot (insert_after tx rounds)) λ i. insert_from blocks i)
          t
  ]

  unfoldable pub table_insert : ℕ → Op (TableScan S) (Unit {0})
  unfolding insert_from insert_after
  table_insert blocks = bind (step_slot (insert_after tx rounds)) λ i. insert_from blocks i

  -- The constructor.
  unfoldable pub make_table_scan : Text → Layout → S → Result (Unit {0}) × TableScan S
  unfolding move_to_new_block move_to_block
  make_table_scan table l s = start blank
    where
      blank : TableScan S
      blank = record {
        base = s;
        layout = l;
        filename = table ++ table_ext;
        rec_page = none;
        curr_slot = negsuc 0;
      }

      start : Op (TableScan S) (Unit {0})
      start t =
          bind (on_tx (tx.size t.filename))
            (λ n. if n ==ℤ pos 0 then move_to_new_block else move_to_block (pos 0)) t

  abbrev pub table_get_int : Text → Op (TableScan S) ℤ
  table_get_int f t = on_page (λ p. page_get_int tx p t.curr_slot f) t

  abbrev pub table_get_str : Text → Op (TableScan S) Text
  table_get_str f t = on_page (λ p. page_get_str tx p t.curr_slot f) t

  unfoldable pub table_get_val : Text → Op (TableScan S) Constant
  unfolding field_type page_get_int page_get_str
  table_get_val f t =
      bind (lift (field_type t.layout.schema f))
        (λ type. elim type [
          | integer ↦ bind (table_get_int f) λ z. return (int z)
          | varchar ↦ bind (table_get_str f) λ s. return (str s)
        ])
        t

  unfoldable pub table_has_field : Text → TableScan S → Bool
  unfolding has_field
  table_has_field f t = has_field t.layout.schema f

  unfoldable pub table_set_int : Text → ℤ → Op (TableScan S) (Unit {0})
  unfolding page_set_int
  table_set_int f v t = on_page (λ p. page_set_int tx p t.curr_slot f v) t

  unfoldable pub table_set_str : Text → Text → Op (TableScan S) (Unit {0})
  unfolding page_set_str
  table_set_str f v t = on_page (λ p. page_set_str tx p t.curr_slot f v) t

  unfoldable pub table_set_val : Text → Constant → Op (TableScan S) (Unit {0})
  unfolding field_type table_set_int table_set_str as_int as_str
  table_set_val f v t =
      bind (lift (field_type t.layout.schema f))
        (λ type. elim type [
          | integer ↦ bind (lift (as_int v)) (table_set_int f)
          | varchar ↦ bind (lift (as_str v)) (table_set_str f)
        ])
        t

  unfoldable pub table_delete : Op (TableScan S) (Unit {0})
  unfolding delete_slot
  table_delete t = on_page (λ p. delete_slot tx p t.curr_slot) t

  unfoldable pub table_rid : Op (TableScan S) RecordId
  table_rid = bind block_number λ n t. (ok (record { blk_num = n; slot = t.curr_slot }), t)

  unfoldable pub move_to_rid : RecordId → Op (TableScan S) (Unit {0})
  unfolding move_to
  move_to_rid rid t = move_to (record { filename = t.filename; blk_num = rid.blk_num }) rid.slot t
