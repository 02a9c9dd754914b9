-- ===== src/Index/BtreeIndex.antt =====
-- A B-tree index: src/libs/dbcore/index/btree/btree_index.{hpp,cpp}, over the methods of a transaction.
-- The constructor leaves `m_dir_layout` and `m_root_blk` as their own constructors make them; what the
-- layout holds is an argument.
use myc_db.Prelude.{
  ℕ, Bool, false, true, ◌++◌, Option, none, some, pos, negsuc, ◌==ℤ◌, undefined, Result, ok, err,
  Op, bind, return, Text, text,
}
use myc_db.File.Block.{BlockId, default_block}
use myc_db.Query.Constant.{Constant}
use myc_db.Record.Schema.{RecordId, default_rid}
use myc_db.Record.Layout.{Layout}
use myc_db.Index.BtreePage.{format_page, closing}
use myc_db.Index.BtreeLeaf.{
  BtreeLeaf, make_leaf, leaf_close, leaf_next, leaf_rid, leaf_insert, leaf_delete,
}
use myc_db.Index.BtreeDir.{BtreeDir, make_dir, dir_close, dir_search, dir_insert, make_new_root}
use myc_db.Tx.Access.{TxOps}

-- The leaf holds the transaction that it shares in its own `base`.
pub record BtreeIndex (S : Type 0) : Type 0 where
  pub base : S
  pub dir_layout : Layout
  pub leaf_layout : Layout
  pub leaf_tbl : Text
  pub leaf : Option (BtreeLeaf S)
  pub root_blk : BlockId

abbrev pub on_index_tx : {A S : Type 0} → Op S A → Op (BtreeIndex S) A
on_index_tx call x = ((call x.base).0, record x { base = (call x.base).1 })

abbrev pub put_leaf : {S : Type 0} → Option (BtreeLeaf S) → Op (BtreeIndex S) (Unit {0})
put_leaf l x = (ok tt, record x { leaf = l })

-- A call of the leaf, which sees the state of the transaction as the index does.
abbrev pub on_leaf : {A S : Type 0} → BtreeLeaf S → Op (BtreeLeaf S) A → Op (BtreeIndex S) A
on_leaf l call x =
    let r = call (record l { base = x.base }) in
    (r.0, record x { base = r.1.base; leaf = some r.1 })

-- `m_leaf` may be a null pointer.
abbrev pub through_leaf : {A S : Type 0} → Op (BtreeLeaf S) A → Op (BtreeIndex S) A
through_leaf call x = elim x.leaf [ none ↦ (err undefined, x) | some l ↦ on_leaf l call x ]

module _ {S : Type 0} (tx : TxOps S) (inner rounds levels : ℕ) where
  -- A call of the root, which is closed by its destructor if it throws.
  unfoldable pub on_root : {A : Type 0} → Op (BtreeDir S) A → Op (BtreeIndex S) A
  unfolding dir_close
  on_root call x =
      let r = call (make_dir x.base x.root_blk x.dir_layout) in
      let closed = dir_close tx r.1 in
      (
        elim r.0 [ err e ↦ err e | ok a ↦ elim closed.0 [ err e ↦ err e | ok u ↦ ok a ] ],
        record x { base = closed.1.base },
      )

  -- The constructor.
  unfoldable pub make_btree_index : Layout → Text → Layout → S → Result (Unit {0}) × BtreeIndex S
  unfolding format_page closing
  make_btree_index garbage name leaf_layout s = start (record {
    base = s;
    dir_layout = garbage;
    leaf_layout = leaf_layout;
    leaf_tbl = name ++ text "leaf";
    leaf = none;
    root_blk = default_block;
  })
    where
      start : Op (BtreeIndex S) (Unit {0})
      start x =
          bind (on_index_tx (tx.size x.leaf_tbl))
            (λ n. elim (n ==ℤ pos 0) [
              | false ↦ return tt
              | true ↦ bind (on_index_tx (tx.append x.leaf_tbl)) λ blk. on_index_tx (
                  closing tx (record { curr_blk = blk; layout = leaf_layout })
                    (format_page tx rounds leaf_layout blk (negsuc 0)))
            ])
            x

  unfoldable pub btree_close : Op (BtreeIndex S) (Unit {0})
  unfolding leaf_close
  btree_close x = elim x.leaf [
    | none ↦ (ok tt, x)
    | some l ↦ bind (on_leaf l (leaf_close tx)) (λ _. put_leaf none) x
  ]

  unfoldable pub btree_before_first : Constant → Op (BtreeIndex S) (Unit {0})
  unfolding btree_close on_root dir_search make_leaf
  btree_before_first key = bind btree_close λ _.
      bind (on_root (dir_search tx rounds levels key)) λ n x.
        bind
          (on_index_tx
            (make_leaf tx rounds (record { filename = x.leaf_tbl; blk_num = n }) x.leaf_layout key))
          (λ l. put_leaf (some l)) x

  unfoldable pub btree_next : Op (BtreeIndex S) Bool
  unfolding leaf_next
  btree_next x = elim x.leaf [ none ↦ (ok false, x) | some l ↦ on_leaf l (leaf_next tx) x ]

  unfoldable pub btree_rid : Op (BtreeIndex S) RecordId
  unfolding leaf_rid
  btree_rid x = elim x.leaf [ none ↦ (ok default_rid, x) | some l ↦ on_leaf l (leaf_rid tx) x ]

  -- The leaf is closed, and then deleted.
  unfoldable pub drop_leaf : Op (BtreeIndex S) (Unit {0})
  unfolding leaf_close
  drop_leaf = bind (through_leaf (leaf_close tx)) λ _. put_leaf none

  unfoldable pub btree_insert : Constant → RecordId → Op (BtreeIndex S) (Unit {0})
  unfolding btree_before_first leaf_insert drop_leaf on_root dir_insert make_new_root
  btree_insert key rid = bind (btree_before_first key) λ _.
      bind (through_leaf (leaf_insert tx inner rounds rid)) λ e. bind drop_leaf λ _.
        elim (e.blk_num ==ℤ negsuc 0) [
          | true ↦ return tt
          | false ↦ on_root (
              bind (dir_insert tx inner rounds levels e) λ e2. elim (e2.blk_num ==ℤ negsuc 0) [
                | true ↦ make_new_root tx inner rounds e2
                | false ↦ return tt
              ])
        ]

  unfoldable pub btree_delete : Constant → RecordId → Op (BtreeIndex S) (Unit {0})
  unfolding btree_before_first leaf_delete drop_leaf
  btree_delete key rid =
      bind (btree_before_first key)
        λ _. bind (through_leaf (leaf_delete tx inner rounds rid)) λ _. drop_leaf
