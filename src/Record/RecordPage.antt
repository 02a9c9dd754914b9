-- ===== src/Record/RecordPage.antt =====
-- The slots of a block: src/libs/dbcore/record/record_page.h, over the methods of a transaction. A slot
-- starts with a flag. The page refers to a block that its owner holds.
pub mod Search
use myc_db.Prelude.{
  ℕ, zero, suc, Bool, true, false, List, [], ◌∷◌, Option, none, some, if◌then◌else◌, ℤ, pos, negsuc,
  ◌+ℤ◌, ◌*ℤ◌, ◌==ℤ◌, ltb_ℤ, in_int, not, undefined, deadlock, Result, ok, err, ◌>>=◌, Op, bind,
  continue, return, throw, lift, Text, text,
}
use myc_db.File.Page.{add_int}
use myc_db.File.Manager.{mul_int}
use myc_db.File.Block.{BlockId}
use myc_db.Record.Schema.{Schema, SqlType, integer, varchar, field_type}
use myc_db.Record.Layout.{Layout, offset}
use myc_db.Tx.Access.{TxOps}

-- `page_rec_flag`.
abbrev pub empty : ℤ
empty = pos 0

abbrev pub used : ℤ
used = pos 1

-- `blk` is `none` when the block that the page refers to is gone.
pub record RecordPage : Type 0 where
  pub blk : Option BlockId
  pub layout : Layout

unfoldable pub calculate_offset : Layout → ℤ → Result ℤ
unfolding mul_int
calculate_offset l slot = mul_int slot l.slot_size

-- `calculate_offset(slot) + m_layout.offset(fldname)`.
unfoldable pub field_pos : Layout → ℤ → Text → Result ℤ
unfolding calculate_offset add_int offset
field_pos l slot fldname = do
  start ← calculate_offset l slot
  at_field ← offset l fldname
  add_int start at_field

unfoldable pub is_valid_slot : Layout → ℤ → ℤ → Result Bool
unfolding calculate_offset add_int
is_valid_slot l block_size slot = do
  next ← add_int slot (pos 1)
  end ← calculate_offset l next
  ok (not (ltb_ℤ block_size end))

module _ {S : Type 0} (tx : TxOps S) where
  -- A use of the block.
  abbrev pub on_block : {A : Type 0} → RecordPage → (BlockId → Op S A) → Op S A
  on_block p call s = elim p.blk [ none ↦ (err undefined, s) | some blk ↦ call blk s ]

  -- The constructor.
  unfoldable pub make_record_page : Option BlockId → Layout → Op S RecordPage
  make_record_page blk l =
      let p : RecordPage = record { blk = blk; layout = l } in
      bind (on_block p tx.pin) λ _. return p

  unfoldable pub set_flag : RecordPage → ℤ → ℤ → Op S (Unit {0})
  unfolding calculate_offset
  set_flag p slot flag = on_block p λ blk.
      bind (lift (calculate_offset p.layout slot)) λ at_flag. tx.set_int blk at_flag flag true

  -- The loop of `search_after`, with a bound on its rounds.
  unfoldable pub search_from : RecordPage → ℤ → ℕ → ℤ → Op S ℤ
  unfolding is_valid_slot calculate_offset add_int
  search_from p flag zero slot s = (err deadlock, s)
  search_from p flag (suc rounds) slot s = elim (is_valid_slot p.layout (tx.block_size s) slot) [
    | err e ↦ (err e, s)
    | ok false ↦ (ok (negsuc 0), s)
    | ok true ↦
        bind (lift (calculate_offset p.layout slot))
          (λ at_flag. bind (on_block p λ blk. tx.get_int blk at_flag) λ v. elim (v ==ℤ flag) [
            | true ↦ return slot
            | false ↦ bind (lift (add_int slot (pos 1))) λ next. search_from p flag rounds next
          ])
          s
  ]

  unfoldable pub search_after : ℕ → RecordPage → ℤ → ℤ → Op S ℤ
  unfolding search_from add_int
  search_after rounds p slot flag =
      bind (lift (add_int slot (pos 1))) λ first. search_from p flag rounds first

  unfoldable pub page_get_int : RecordPage → ℤ → Text → Op S ℤ
  unfolding field_pos
  page_get_int p slot fldname =
      bind (lift (field_pos p.layout slot fldname)) λ i. on_block p λ blk. tx.get_int blk i

  unfoldable pub page_get_str : RecordPage → ℤ → Text → Op S Text
  unfolding field_pos
  page_get_str p slot fldname =
      bind (lift (field_pos p.layout slot fldname)) λ i. on_block p λ blk. tx.get_str blk i

  unfoldable pub page_set_int : RecordPage → ℤ → Text → ℤ → Op S (Unit {0})
  unfolding field_pos
  page_set_int p slot fldname v =
      bind (lift (field_pos p.layout slot fldname)) λ i. on_block p λ blk. tx.set_int blk i v true

  unfoldable pub page_set_str : RecordPage → ℤ → Text → Text → Op S (Unit {0})
  unfolding field_pos
  page_set_str p slot fldname v =
      bind (lift (field_pos p.layout slot fldname)) λ i. on_block p λ blk. tx.set_str blk i v true

  unfoldable pub delete_slot : RecordPage → ℤ → Op S (Unit {0})
  unfolding set_flag
  delete_slot p slot = set_flag p slot empty

  -- The fields of one slot are set to 0 or to the empty text.
  unfoldable pub format_fields : BlockId → Layout → ℤ → List Text → Op S (Unit {0})
  unfolding field_pos field_type
  format_fields blk l slot [] = return tt
  format_fields blk l slot (f ∷ fs) = bind (lift (field_pos l slot f)) λ i.
      bind (lift (field_type l.schema f)) λ type.
        bind
          (elim type [
            | integer ↦ tx.set_int blk i (pos 0) false
            | varchar ↦ tx.set_str blk i [] false
          ])
          λ _. format_fields blk l slot fs

  -- The loop of `format`, with a bound on its rounds.
  unfoldable pub format_from : RecordPage → ℕ → ℤ → Op S (Unit {0})
  unfolding is_valid_slot calculate_offset format_fields add_int
  format_from p zero slot s = (err deadlock, s)
  format_from p (suc rounds) slot s = elim (is_valid_slot p.layout (tx.block_size s) slot) [
    | err e ↦ (err e, s)
    | ok false ↦ (ok tt, s)
    | ok true ↦
        bind (lift (calculate_offset p.layout slot))
          (λ at_flag. bind (on_block p λ blk. tx.set_int blk at_flag empty false) λ _.
            bind (on_block p λ blk. format_fields blk p.layout slot p.layout.schema.fields)
              λ _. bind (lift (add_int slot (pos 1))) λ next. format_from p rounds next)
          s
  ]

  unfoldable pub format : ℕ → RecordPage → Op S (Unit {0})
  unfolding format_from
  format rounds p = format_from p rounds (pos 0)

  unfoldable pub next_after : ℕ → RecordPage → ℤ → Op S ℤ
  unfolding search_after
  next_after rounds p slot = search_after rounds p slot used

  unfoldable pub insert_after : ℕ → RecordPage → ℤ → Op S ℤ
  unfolding search_after set_flag
  insert_after rounds p slot = bind (search_after rounds p slot empty) λ new_slot.
      if ltb_ℤ new_slot (pos 0)
      then return new_slot
      else bind (set_flag p new_slot used) λ _. return new_slot
