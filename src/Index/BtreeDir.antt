-- ===== src/Index/BtreeDir.antt =====
-- A directory page of a B-tree: src/libs/dbcore/index/btree/bt_dir.h, over the methods of a
-- transaction. `inner` and `rounds` bound the loops of the page, `levels` those of the directory.
use myc_db.Prelude.{
  ℕ, zero, suc, true, false, if◌then◌else◌, ℤ, pos, ◌==ℤ◌, ltb_ℤ, deadlock, ok, err, Op, bind,
  return, lift, Text,
}
use myc_db.File.Page.{add_int}
use myc_db.File.Block.{BlockId}
use myc_db.Query.Constant.{Constant, same_constant}
use myc_db.Record.Layout.{Layout}
use myc_db.Index.BtreePage.{
  BtreePage, get_num_recs, get_flag, set_page_flag, close_page, split, is_full, get_data_val,
  find_slot_before, get_child_num, insert_dir,
}
use myc_db.Index.BtreeLeaf.{DirEntry, no_entry, half}
use myc_db.Tx.Access.{TxOps}

pub record BtreeDir (S : Type 0) : Type 0 where
  pub base : S
  pub layout : Layout
  pub contents : BtreePage
  pub filename : Text

-- The constructor.
abbrev pub make_dir : {S : Type 0} → S → BlockId → Layout → BtreeDir S
make_dir s blk l = record {
  base = s;
  layout = l;
  contents = record { curr_blk = blk; layout = l };
  filename = blk.filename;
}

abbrev pub on_dir_page : {A S : Type 0} → (BtreePage → Op S A) → Op (BtreeDir S) A
on_dir_page call d = ((call d.contents d.base).0, record d { base = (call d.contents d.base).1 })

abbrev pub put_dir_page : {S : Type 0} → BtreePage → Op (BtreeDir S) (Unit {0})
put_dir_page p d = (ok tt, record d { contents = p })

module _ {S : Type 0} (tx : TxOps S) where
  unfoldable pub dir_close : Op (BtreeDir S) (Unit {0})
  dir_close = bind (on_dir_page (close_page tx)) put_dir_page

  -- `m_contents = btree_page(m_tx, child_blk, m_layout)`: the page on the right is closed by its
  -- destructor.
  unfoldable pub assign_dir_page : BlockId → Op (BtreeDir S) (Unit {0})
  assign_dir_page blk d =
      bind (put_dir_page (record { curr_blk = blk; layout = d.layout }))
        (λ _. bind (on_dir_page (close_page tx)) λ _. return tt) d

  -- The slot of the child: the one found, or the next one if its key is the same.
  unfoldable pub child_slot : ℕ → Constant → BtreePage → Op S ℤ
  child_slot rounds key p = bind (find_slot_before tx rounds p key) λ slot.
      bind (lift (add_int slot (pos 1))) λ next.
        bind (get_data_val tx p next) λ v. return (if same_constant v key then next else slot)

  unfoldable pub find_child_block : ℕ → Constant → Op (BtreeDir S) BlockId
  unfolding child_slot
  find_child_block rounds key d =
      bind (on_dir_page (child_slot rounds key))
        (λ slot.
          bind (on_dir_page λ p. get_child_num tx p slot)
            λ n. return (record { filename = d.filename; blk_num = n }))
        d

  -- The loop of `search`.
  unfoldable pub search_down : ℕ → ℕ → Constant → BlockId → Op (BtreeDir S) ℤ
  unfolding dir_close assign_dir_page find_child_block
  search_down rounds zero key blk d = (err deadlock, d)
  search_down rounds (suc levels) key blk d =
      bind (on_dir_page (get_flag tx))
        (λ flag. elim (ltb_ℤ (pos 0) flag) [
          | false ↦ return blk.blk_num
          | true ↦ bind dir_close λ _.
              bind (assign_dir_page blk)
                λ _. bind (find_child_block rounds key) (search_down rounds levels key)
        ])
        d

  unfoldable pub dir_search : ℕ → ℕ → Constant → Op (BtreeDir S) ℤ
  unfolding find_child_block search_down
  dir_search rounds levels key = bind (find_child_block rounds key) (search_down rounds levels key)

  unfoldable pub insert_entry : ℕ → ℕ → DirEntry → Op (BtreeDir S) DirEntry
  insert_entry inner rounds e =
      bind (on_dir_page λ p. find_slot_before tx rounds p e.data_val) λ before.
        bind (lift (add_int (pos 1) before)) λ new_slot.
          bind (on_dir_page λ p. insert_dir tx p new_slot e.data_val e.blk_num) λ _.
            bind (on_dir_page (is_full tx)) λ full. elim full [
              | false ↦ return no_entry
              | true ↦ bind (on_dir_page (get_flag tx)) λ level.
                  bind (on_dir_page (get_num_recs tx)) λ n.
                    bind (on_dir_page λ p. get_data_val tx p (half n)) λ split_val.
                      bind (on_dir_page λ p. split tx inner rounds p (half n) level) λ new_blk.
                        return (record { data_val = split_val; blk_num = new_blk.blk_num })
            ]

  unfoldable pub make_new_root : ℕ → ℕ → DirEntry → Op (BtreeDir S) (Unit {0})
  unfolding insert_entry
  make_new_root inner rounds e = bind (on_dir_page λ p. get_data_val tx p (pos 0)) λ first_val.
      bind (on_dir_page (get_flag tx)) λ level.
        bind (on_dir_page λ p. split tx inner rounds p (pos 0) level) λ new_blk.
          bind
            (insert_entry inner rounds (record { data_val = first_val; blk_num = new_blk.blk_num }))
            λ _. bind (insert_entry inner rounds e) λ _.
              bind (lift (add_int level (pos 1))) λ above. on_dir_page λ p. set_page_flag tx p above

  -- A call of the child, which is closed afterwards, by `close` or by its destructor.
  unfoldable pub on_child : BlockId → Op (BtreeDir S) DirEntry → Op (BtreeDir S) DirEntry
  unfolding dir_close
  on_child blk call d =
      let r = call (make_dir d.base blk d.layout) in
      let closed = dir_close r.1 in
      (
        elim r.0 [ err x ↦ err x | ok e ↦ elim closed.0 [ err x ↦ err x | ok u ↦ ok e ] ],
        record d { base = closed.1.base },
      )

  unfoldable pub dir_insert : ℕ → ℕ → ℕ → DirEntry → Op (BtreeDir S) DirEntry
  unfolding insert_entry find_child_block on_child
  dir_insert inner rounds zero e d = (err deadlock, d)
  dir_insert inner rounds (suc levels) e d =
      bind (on_dir_page (get_flag tx))
        (λ flag. elim (flag ==ℤ pos 0) [
          | true ↦ insert_entry inner rounds e
          | false ↦ bind (find_child_block rounds e.data_val) λ blk.
              bind (on_child blk (dir_insert inner rounds levels e)) λ my_entry.
                elim (my_entry.blk_num ==ℤ pos 1) [
                  | false ↦ insert_entry inner rounds my_entry
                  | true ↦ return no_entry
                ]
        ])
        d
