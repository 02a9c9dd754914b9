-- ===== src/Tx/Access.antt =====
-- What the record and index pages use of a transaction, as a record of its methods over a state, and
-- the transaction of src/libs/dbcore/tx/transaction.h as such a record.
pub mod Locked
use myc_db.Prelude.{ℤ, Bool, Op, Text, pos}
use myc_db.File.Block.{BlockId}
use myc_db.Tx.Transaction.{
  Transaction, Others, tx_pin, tx_unpin, tx_get_int, tx_get_str, tx_set_int, tx_set_str, tx_size,
  tx_append,
}

pub record TxOps (S : Type 0) : Type 0 where
  pub pin : BlockId → Op S (Unit {0})
  pub unpin : BlockId → Op S (Unit {0})
  pub get_int : BlockId → ℤ → Op S ℤ
  pub get_str : BlockId → ℤ → Op S Text
  pub set_int : BlockId → ℤ → ℤ → Bool → Op S (Unit {0})
  pub set_str : BlockId → ℤ → Text → Bool → Op S (Unit {0})
  pub size : Text → Op S ℤ
  pub append : Text → Op S BlockId
  pub block_size : S → ℤ

abbrev pub transaction_ops : Others → TxOps Transaction
transaction_ops o = record {
  pin = tx_pin o;
  unpin = tx_unpin;
  get_int = tx_get_int o;
  get_str = tx_get_str o;
  set_int = tx_set_int o;
  set_str = tx_set_str o;
  size = tx_size o;
  append = tx_append o;
  block_size = λ t. t.list.bm.log.fm.block_size;
}
