-- ===== src/Index/BtreeLeaf.antt =====
-- A leaf of a B-tree: src/libs/dbcore/index/btree/bt_leaf.h and dir_entry.h, over the methods of a
-- transaction. The loops have bounds on their rounds: `inner` and `rounds` are those of the page.
pub mod Moves
pub mod Split
use myc_db.Prelude.{
  ℕ, zero, suc, ◌/◌, Bool, true, false, ◌||◌, not, if◌then◌else◌, ℤ, pos, negsuc, ◌-ℤ◌, ltb_ℤ,
  deadlock, Result, ok, err, Op, bind, return, lift, Text,
}
use myc_db.File.Page.{add_int}
use myc_db.File.Block.{BlockId}
use myc_db.Query.Constant.{Constant, int, same_constant, less}
use myc_db.Record.Schema.{RecordId, same_rid}
use myc_db.Record.Layout.{Layout}
use myc_db.Index.BtreePage.{
  BtreePage, get_num_recs, get_flag, set_page_flag, close_page, split, is_full, get_data_val,
  find_slot_before, delete_rec, get_data_rid, insert_leaf,
}
use myc_db.Tx.Access.{TxOps}

pub record DirEntry : Type 0 where
  pub data_val : Constant
  pub blk_num : ℤ

-- `dir_entry()`, with an empty `constant`.
abbrev pub no_entry : DirEntry
no_entry = record { data_val = int (pos 0); blk_num = negsuc 0 }

pub record BtreeLeaf (S : Type 0) : Type 0 where
  pub base : S
  pub layout : Layout
  pub search_key : Constant
  pub contents : BtreePage
  pub curr_slot : ℤ
  pub filename : Text

-- `n / 2` on an `int`, rounded towards 0.
unfoldable pub half : ℤ → ℤ
half (pos n) = pos (n / 2)
half (negsuc n) = pos 0 -ℤ pos (suc n / 2)

-- A call of the page, on the transaction that it shares with the leaf.
abbrev pub on_contents : {A S : Type 0} → (BtreePage → Op S A) → Op (BtreeLeaf S) A
on_contents call l = ((call l.contents l.base).0, record l { base = (call l.contents l.base).1 })

abbrev pub put_contents : {S : Type 0} → BtreePage → Op (BtreeLeaf S) (Unit {0})
put_contents p l = (ok tt, record l { contents = p })

abbrev pub put_curr_slot : {S : Type 0} → ℤ → Op (BtreeLeaf S) (Unit {0})
put_curr_slot i l = (ok tt, record l { curr_slot = i })

module _ {S : Type 0} (tx : TxOps S) where
  unfoldable pub leaf_close : Op (BtreeLeaf S) (Unit {0})
  unfolding close_page
  leaf_close = bind (on_contents (close_page tx)) put_contents

  -- `m_contents = btree_page(m_tx, blk, m_layout)`: the page on the right is closed by its destructor.
  unfoldable pub assign_page : BlockId → Op (BtreeLeaf S) (Unit {0})
  unfolding close_page
  assign_page blk l =
      bind (put_contents (record { curr_blk = blk; layout = l.layout }))
        (λ _. bind (on_contents (close_page tx)) λ _. return tt) l

  unfoldable pub try_overflow : Op (BtreeLeaf S) Bool
  unfolding get_data_val get_flag same_constant leaf_close assign_page
  try_overflow = bind (on_contents λ p. get_data_val tx p (pos 0)) λ first_key.
      bind (on_contents (get_flag tx)) λ flag l.
        if not (same_constant l.search_key first_key) || ltb_ℤ flag (pos 0)
        then (ok false, l)
        else bind leaf_close
            (λ _.
              bind (assign_page (record { filename = l.filename; blk_num = flag }))
                λ _. bind (put_curr_slot (pos 0)) λ _. return true)
            l

  -- The constructor. The page is closed by its destructor if the search throws.
  unfoldable pub make_leaf : ℕ → BlockId → Layout → Constant → Op S (BtreeLeaf S)
  unfolding find_slot_before close_page
  make_leaf rounds blk l key s =
      let p : BtreePage = record { curr_blk = blk; layout = l } in
      let r = find_slot_before tx rounds p key s in
      elim r.0 [
        | err e ↦ (err e, (close_page tx p r.1).1)
        | ok slot ↦ (
          ok (record {
            base = r.1;
            layout = l;
            search_key = key;
            contents = p;
            curr_slot = slot;
            filename = blk.filename;
          }),
          r.1,
        )
      ]

  unfoldable pub leaf_next : Op (BtreeLeaf S) Bool
  unfolding add_int get_num_recs get_data_val same_constant try_overflow
  leaf_next l =
      bind (lift (add_int l.curr_slot (pos 1)))
        (λ slot. bind (put_curr_slot slot) λ _. bind (on_contents (get_num_recs tx)) λ n.
          elim (ltb_ℤ slot n) [
            | false ↦ try_overflow
            | true ↦ bind (on_contents λ p. get_data_val tx p slot) λ v m.
                elim (same_constant v m.search_key) [ true ↦ (ok true, m) | false ↦ try_overflow m ]
          ])
        l

  unfoldable pub leaf_rid : Op (BtreeLeaf S) RecordId
  unfolding get_data_rid
  leaf_rid l = on_contents (λ p. get_data_rid tx p l.curr_slot) l

  -- The loop of `delete_record`, with a bound on its rounds.
  unfoldable pub leaf_delete : ℕ → ℕ → RecordId → Op (BtreeLeaf S) (Unit {0})
  unfolding leaf_next leaf_rid same_rid delete_rec
  leaf_delete inner zero rid l = (err deadlock, l)
  leaf_delete inner (suc rounds) rid l =
      bind leaf_next
        (λ more. elim more [
          | false ↦ return tt
          | true ↦ bind leaf_rid λ r. elim (same_rid r rid) [
            | true ↦ λ m. on_contents (λ p. delete_rec tx inner p m.curr_slot) m
            | false ↦ leaf_delete inner rounds rid
          ]
        ])
        l

  -- `while (get_data_val(split_pos) == split_key) split_pos++;`
  unfoldable pub move_right : BtreePage → Constant → ℕ → ℤ → Op S ℤ
  move_right p key zero i s = (err deadlock, s)
  move_right p key (suc rounds) i s =
      bind (get_data_val tx p i)
        (λ v. elim (same_constant v key) [
          | false ↦ return i
          | true ↦ bind (lift (add_int i (pos 1))) (move_right p key rounds)
        ])
        s

  -- `while (get_data_val(split_pos - 1) == split_key) split_pos--;`
  unfoldable pub move_left : BtreePage → Constant → ℕ → ℤ → Op S ℤ
  move_left p key zero i s = (err deadlock, s)
  move_left p key (suc rounds) i s =
      bind (lift (add_int i (negsuc 0)))
        (λ before. bind (get_data_val tx p before) λ v. elim (same_constant v key) [
          | false ↦ return i
          | true ↦ move_left p key rounds before
        ])
        s

  -- Where a full page with different keys is split, and the key there.
  unfoldable pub choose_split : ℕ → BtreePage → Constant → Op S (ℤ × Constant)
  choose_split rounds p first_key = bind (get_num_recs tx p) λ n.
      let mid = half n in
      bind (get_data_val tx p mid) λ split_key. elim (same_constant split_key first_key) [
        | true ↦
            bind (move_right p split_key rounds mid)
              λ i. bind (get_data_val tx p i) λ key. return (i, key)
        | false ↦ bind (move_left p split_key rounds mid) λ i. return (i, split_key)
      ]

  -- The end of `insert`, on a full page.
  unfoldable pub split_leaf : ℕ → ℕ → BtreePage → Op S DirEntry
  unfolding get_data_val get_num_recs add_int same_constant split get_flag set_page_flag
      choose_split
  split_leaf inner rounds p = bind (get_data_val tx p (pos 0)) λ first_key.
      bind (get_num_recs tx p) λ n. bind (lift (add_int n (negsuc 0))) λ last.
        bind (get_data_val tx p last) λ last_key. elim (same_constant last_key first_key) [
          | true ↦ bind (get_flag tx p) λ flag.
              bind (split tx inner rounds p (pos 1) flag)
                λ new_blk. bind (set_page_flag tx p new_blk.blk_num) λ _. return no_entry
          | false ↦ bind (choose_split rounds p first_key) λ c.
              bind (split tx inner rounds p c.0 (negsuc 0))
                λ new_blk. return (record { data_val = c.1; blk_num = new_blk.blk_num })
        ]

  -- `get_flag() >= 0 && get_data_val(0) > m_search_key`.
  unfoldable pub comes_first : Op (BtreeLeaf S) Bool
  unfolding get_flag get_data_val less
  comes_first l =
      bind (on_contents (get_flag tx))
        (λ flag. elim (ltb_ℤ flag (pos 0)) [
          | true ↦ return false
          | false ↦
              bind (on_contents λ p. get_data_val tx p (pos 0)) λ v. return (less l.search_key v)
        ])
        l

  -- The new record stands before an overflow chain, which moves to a page of its own.
  unfoldable pub insert_first : ℕ → ℕ → RecordId → Op (BtreeLeaf S) DirEntry
  unfolding get_data_val get_flag split set_page_flag insert_leaf
  insert_first inner rounds rid = bind (on_contents λ p. get_data_val tx p (pos 0)) λ first_val.
      bind (on_contents (get_flag tx)) λ flag.
        bind (on_contents λ p. split tx inner rounds p (pos 0) flag) λ new_blk.
          bind (put_curr_slot (pos 0)) λ _.
            bind (on_contents λ p. set_page_flag tx p (negsuc 0)) λ _.
              bind (λ l. on_contents (λ p. insert_leaf tx p (pos 0) l.search_key rid) l)
                λ _. return (record { data_val = first_val; blk_num = new_blk.blk_num })

  unfoldable pub leaf_insert : ℕ → ℕ → RecordId → Op (BtreeLeaf S) DirEntry
  unfolding comes_first insert_first add_int insert_leaf is_full split_leaf
  leaf_insert inner rounds rid = bind comes_first λ first. elim first [
    | true ↦ insert_first inner rounds rid
    | false ↦ λ l.
        bind (lift (add_int l.curr_slot (pos 1)))
          (λ slot. bind (put_curr_slot slot) λ _.
            bind (on_contents λ p. insert_leaf tx p slot l.search_key rid) λ _.
              bind (on_contents (is_full tx)) λ full. elim full [
                | false ↦ return no_entry
                | true ↦ on_contents (split_leaf inner rounds)
              ])
          l
  ]
