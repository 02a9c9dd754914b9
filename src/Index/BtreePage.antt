-- ===== src/Index/BtreePage.antt =====
-- A page of a B-tree: src/libs/dbcore/index/btree/bt_page.h, over the methods of a transaction. A page
-- starts with a flag and the number of its records. Loops have a bound on their rounds.
pub mod Search
use myc_db.Prelude.{
  ℕ, zero, suc, ◌+◌, Bool, true, false, not, List, [], ◌∷◌, if◌then◌else◌, ℤ, pos, negsuc, ◌+ℤ◌,
  ◌-ℤ◌, ltb_ℤ, pos_part, size_of, deadlock, Result, ok, err, ◌>>=◌, Op, bind, continue, return,
  lift, Text, text,
}
use myc_db.File.Page.{add_int, to_int, int_size}
use myc_db.File.Block.{BlockId, default_block, is_valid}
use myc_db.Query.Constant.{Constant, int, str, as_int, as_str, same_constant}
use myc_db.Record.Schema.{RecordId, SqlType, integer, varchar, field_type}
use myc_db.Record.Layout.{Layout, offset}
use myc_db.File.Manager.{mul_int}
use myc_db.Tx.Access.{TxOps}

pub record BtreePage : Type 0 where
  pub curr_blk : BlockId
  pub layout : Layout

-- `sizeof(int) + sizeof(int) + (slot * slot_size)`, back in an `int`.
unfoldable pub slot_pos : Layout → ℤ → Result ℤ
unfolding mul_int
slot_pos l slot = mul_int slot l.slot_size >>= λ n. ok (to_int (int_size + int_size + size_of n))

unfoldable pub fld_pos : Layout → ℤ → Text → Result ℤ
unfolding slot_pos offset add_int
fld_pos l slot fldname = do
  at_field ← offset l fldname
  start ← slot_pos l slot
  add_int start at_field

module _ {S : Type 0} (tx : TxOps S) where
  unfoldable pub get_slot_int : BtreePage → ℤ → Text → Op S ℤ
  unfolding fld_pos
  get_slot_int p slot f = bind (lift (fld_pos p.layout slot f)) λ i. tx.get_int p.curr_blk i

  unfoldable pub get_slot_str : BtreePage → ℤ → Text → Op S Text
  unfolding fld_pos
  get_slot_str p slot f = bind (lift (fld_pos p.layout slot f)) λ i. tx.get_str p.curr_blk i

  unfoldable pub get_slot_val : BtreePage → ℤ → Text → Op S Constant
  unfolding field_type get_slot_int get_slot_str
  get_slot_val p slot f = bind (lift (field_type p.layout.schema f)) λ type. elim type [
    | integer ↦ bind (get_slot_int p slot f) λ z. return (int z)
    | varchar ↦ bind (get_slot_str p slot f) λ s. return (str s)
  ]

  unfoldable pub set_slot_int : BtreePage → ℤ → Text → ℤ → Op S (Unit {0})
  unfolding fld_pos
  set_slot_int p slot f v =
      bind (lift (fld_pos p.layout slot f)) λ i. tx.set_int p.curr_blk i v true

  unfoldable pub set_slot_str : BtreePage → ℤ → Text → Text → Op S (Unit {0})
  unfolding fld_pos
  set_slot_str p slot f v =
      bind (lift (fld_pos p.layout slot f)) λ i. tx.set_str p.curr_blk i v true

  unfoldable pub set_slot_val : BtreePage → ℤ → Text → Constant → Op S (Unit {0})
  unfolding field_type set_slot_int set_slot_str as_int as_str
  set_slot_val p slot f v = bind (lift (field_type p.layout.schema f)) λ type. elim type [
    | integer ↦ bind (lift (as_int v)) (set_slot_int p slot f)
    | varchar ↦ bind (lift (as_str v)) (set_slot_str p slot f)
  ]

  unfoldable pub get_num_recs : BtreePage → Op S ℤ
  get_num_recs p = tx.get_int p.curr_blk (pos int_size)

  unfoldable pub set_num_recs : BtreePage → ℤ → Op S (Unit {0})
  set_num_recs p n = tx.set_int p.curr_blk (pos int_size) n true

  unfoldable pub get_flag : BtreePage → Op S ℤ
  get_flag p = tx.get_int p.curr_blk (pos 0)

  unfoldable pub set_page_flag : BtreePage → ℤ → Op S (Unit {0})
  set_page_flag p v = tx.set_int p.curr_blk (pos 0) v true

  -- The fields of a slot of one page go to a slot of another.
  unfoldable pub copy_fields : BtreePage → ℤ → BtreePage → ℤ → List Text → Op S (Unit {0})
  unfolding get_slot_val set_slot_val
  copy_fields p slot q to [] = return tt
  copy_fields p slot q to (f ∷ fs) =
      bind (get_slot_val p slot f) λ v. bind (set_slot_val q to f v) λ _. copy_fields p slot q to fs

  unfoldable pub copy_record : BtreePage → ℤ → ℤ → Op S (Unit {0})
  unfolding copy_fields
  copy_record p slot to = copy_fields p slot p to p.layout.schema.fields

  -- `for (int i = slot + n; i > slot; i--) copy_record(i - 1, i);`
  unfoldable pub shift_up : BtreePage → ℤ → ℕ → Op S (Unit {0})
  unfolding copy_record
  shift_up p slot zero = return tt
  shift_up p slot (suc n) =
      bind (copy_record p (slot +ℤ pos n) (slot +ℤ pos (suc n))) λ _. shift_up p slot n

  -- `set_num_recs(get_num_recs() + d)`.
  unfoldable pub count_recs : BtreePage → ℤ → Op S (Unit {0})
  unfolding get_num_recs set_num_recs add_int
  count_recs p d = bind (get_num_recs p) λ n. bind (lift (add_int n d)) (set_num_recs p)

  unfoldable pub insert_slot : BtreePage → ℤ → Op S (Unit {0})
  unfolding get_num_recs shift_up count_recs
  insert_slot p slot =
      bind (get_num_recs p)
        λ n. bind (shift_up p slot (pos_part (n -ℤ slot))) λ _. count_recs p (pos 1)

  -- `for (; i < get_num_recs(); i++) copy_record(i, i - 1);`
  unfoldable pub shift_down : BtreePage → ℕ → ℤ → Op S (Unit {0})
  unfolding get_num_recs copy_record add_int
  shift_down p zero i s = (err deadlock, s)
  shift_down p (suc rounds) i s =
      bind (get_num_recs p)
        (λ n. elim (ltb_ℤ i n) [
          | false ↦ return tt
          | true ↦
              bind (copy_record p i (i -ℤ pos 1))
                λ _. bind (lift (add_int i (pos 1))) λ next. shift_down p rounds next
        ])
        s

  unfoldable pub delete_rec : ℕ → BtreePage → ℤ → Op S (Unit {0})
  unfolding shift_down count_recs add_int
  delete_rec rounds p slot =
      bind (lift (add_int slot (pos 1)))
        λ first. bind (shift_down p rounds first) λ _. count_recs p (negsuc 0)

  -- The loop of `transfer_recs`.
  unfoldable pub transfer_from : ℕ → ℕ → BtreePage → ℤ → BtreePage → ℤ → Op S (Unit {0})
  unfolding get_num_recs insert_slot copy_fields delete_rec add_int
  transfer_from inner zero p slot dest dest_slot s = (err deadlock, s)
  transfer_from inner (suc rounds) p slot dest dest_slot s =
      bind (get_num_recs p)
        (λ n. elim (ltb_ℤ slot n) [
          | false ↦ return tt
          | true ↦ bind (insert_slot dest dest_slot) λ _.
              bind (copy_fields p slot dest dest_slot p.layout.schema.fields) λ _.
                bind (delete_rec inner p slot) λ _.
                  bind (lift (add_int dest_slot (pos 1)))
                    λ next. transfer_from inner rounds p slot dest next
        ])
        s

  unfoldable pub transfer_recs : ℕ → ℕ → BtreePage → ℤ → BtreePage → Op S (Unit {0})
  unfolding transfer_from
  transfer_recs inner rounds p slot dest = transfer_from inner rounds p slot dest (pos 0)

  -- The loop of `make_default_record`.
  unfoldable pub default_fields : Layout → BlockId → ℤ → List Text → Op S (Unit {0})
  unfolding offset field_type add_int
  default_fields l blk at_rec [] = return tt
  default_fields l blk at_rec (f ∷ fs) = bind (lift (offset l f)) λ i.
      bind (lift (field_type l.schema f)) λ type. bind (lift (add_int at_rec i)) λ at_field.
        bind
          (elim type [
            | integer ↦ tx.set_int blk at_field (pos 0) false
            | varchar ↦ tx.set_str blk at_field [] false
          ])
          λ _. default_fields l blk at_rec fs

  -- The loop of `format`.
  unfoldable pub default_records : Layout → BlockId → ℕ → ℤ → Op S (Unit {0})
  unfolding default_fields add_int
  default_records l blk zero at_rec s = (err deadlock, s)
  default_records l blk (suc rounds) at_rec s =
      bind (lift (add_int at_rec l.slot_size))
        (λ end. elim (ltb_ℤ (tx.block_size s) end) [
          | true ↦ return tt
          | false ↦
              bind (default_fields l blk at_rec l.schema.fields)
                λ _. default_records l blk rounds end
        ])
        s

  unfoldable pub format_page : ℕ → Layout → BlockId → ℤ → Op S (Unit {0})
  unfolding default_records
  format_page rounds l blk flag = bind (tx.set_int blk (pos 0) flag false) λ _.
      bind (tx.set_int blk (pos int_size) (pos 0) false)
        λ _. default_records l blk rounds (pos (int_size + int_size))

  unfoldable pub append_new : ℕ → BtreePage → ℤ → Op S BlockId
  unfolding format_page
  append_new rounds p flag =
      bind (tx.append p.curr_blk.filename)
        λ blk. bind (tx.pin blk) λ _. bind (format_page rounds p.layout blk flag) λ _. return blk

  unfoldable pub close_page : BtreePage → Op S BtreePage
  unfolding is_valid
  close_page p s =
      if is_valid p.curr_blk
      then bind (tx.unpin p.curr_blk) (λ _. return (record p { curr_blk = default_block })) s
      else (ok p, s)

  -- The new page is closed in any case, by `close` or by its destructor.
  unfoldable pub closing : BtreePage → Op S (Unit {0}) → Op S (Unit {0})
  unfolding close_page
  closing p call s = elim (call s).0 [
    | ok u ↦ bind (close_page p) (λ q. return tt) (call s).1
    | err e ↦ (err e, (close_page p (call s).1).1)
  ]

  unfoldable pub split : ℕ → ℕ → BtreePage → ℤ → ℤ → Op S BlockId
  unfolding append_new transfer_recs set_page_flag closing
  split inner rounds p split_pos flag = bind (append_new rounds p flag) λ new_blk.
      let q = record p { curr_blk = new_blk } in
      bind (closing q (bind (transfer_recs inner rounds p split_pos q) λ _. set_page_flag q flag))
        λ _. return new_blk

  unfoldable pub is_full : BtreePage → Op S Bool
  unfolding get_num_recs slot_pos add_int
  is_full p s =
      bind (get_num_recs p)
        (λ n. bind (lift (add_int n (pos 1))) λ m.
          bind (lift (slot_pos p.layout m)) λ end t. (ok (not (ltb_ℤ end (tx.block_size t))), t))
        s

  unfoldable pub get_data_val : BtreePage → ℤ → Op S Constant
  unfolding get_slot_val
  get_data_val p slot = get_slot_val p slot (text "dataval")

  -- The loop of `find_slot_before`.
  unfoldable pub find_from : BtreePage → Constant → ℕ → ℤ → Op S ℤ
  unfolding get_num_recs get_data_val same_constant add_int
  find_from p key zero slot s = (err deadlock, s)
  find_from p key (suc rounds) slot s =
      bind (get_num_recs p)
        (λ n. elim (ltb_ℤ slot n) [
          | false ↦ return slot
          | true ↦ bind (get_data_val p slot) λ v. elim (same_constant v key) [
            | true ↦ return slot
            | false ↦ bind (lift (add_int slot (pos 1))) λ next. find_from p key rounds next
          ]
        ])
        s

  unfoldable pub find_slot_before : ℕ → BtreePage → Constant → Op S ℤ
  unfolding find_from add_int
  find_slot_before rounds p key =
      bind (find_from p key rounds (pos 0)) λ slot. lift (add_int slot (negsuc 0))

  unfoldable pub get_child_num : BtreePage → ℤ → Op S ℤ
  unfolding get_slot_int
  get_child_num p slot = get_slot_int p slot (text "block")

  unfoldable pub insert_dir : BtreePage → ℤ → Constant → ℤ → Op S (Unit {0})
  unfolding insert_slot set_slot_val
  insert_dir p slot v blk_num = bind (insert_slot p slot) λ _.
      bind (set_slot_val p slot (text "dataval") v)
        λ _. set_slot_val p slot (text "block") (int blk_num)

  unfoldable pub get_data_rid : BtreePage → ℤ → Op S RecordId
  unfolding get_slot_int
  get_data_rid p slot =
      bind (get_slot_int p slot (text "block"))
        λ b. bind (get_slot_int p slot (text "id")) λ i. return (record { blk_num = b; slot = i })

  unfoldable pub insert_leaf : BtreePage → ℤ → Constant → RecordId → Op S (Unit {0})
  unfolding insert_slot set_slot_val
  insert_leaf p slot v rid = bind (insert_slot p slot) λ _.
      bind (set_slot_val p slot (text "dataval") v) λ _.
        bind (set_slot_val p slot (text "block") (int rid.blk_num))
          λ _. set_slot_val p slot (text "id") (int rid.slot)
