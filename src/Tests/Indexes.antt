-- ===== src/Tests/Indexes.antt =====
-- A page of a B-tree with two records, which a transaction has locked and pinned.
use myc_db.Prelude.{
  ℕ, zero, suc, ◌<◌, ◌≡◌, refl, ap, [], ◌∷◌, arith, false, some, pos, ◌-ℤ◌, ok, text, same_text,
}
use myc_db.File.Page.{Page, get_int}
use myc_db.File.Block.{same_block}
use myc_db.Buffer.{Buffer, make_buffer}
use myc_db.Query.Constant.{Constant, int, same_constant}
use myc_db.Record.Schema.{integer}
use myc_db.Index.BtreePage.{BtreePage, get_num_recs, get_data_val, find_slot_before}
use myc_db.Index.BtreePage.Search.{Keyed, FirstKey, find_slot_before-FirstKey}
use myc_db.Index.BtreeLeaf.{choose_split}
use myc_db.Index.BtreeLeaf.Split.{choose_split-inside}
use myc_db.Tx.LockTable.{shared, find_mode}
use myc_db.Tx.BufferList.{find_copy}
use myc_db.Tx.Transaction.{Transaction}
use myc_db.Tx.Access.{transaction_ops}
use myc_db.Tx.Access.Locked.{HasCopy, tx_get_int-HasCopy}
use myc_db.Tests.Transactions.{file_of_words, transaction, nobody}

-- The flag, the number of records, and the keys 5 and 9.
abbrev key_page : Page
key_page = record { buffer = 0 ∷ 0 ∷ 0 ∷ 0 ∷ 2 ∷ 0 ∷ 0 ∷ 0 ∷ 5 ∷ 0 ∷ 0 ∷ 0 ∷ 9 ∷ 0 ∷ 0 ∷ 0 ∷ [] }

abbrev keys : ℕ → Constant
keys zero = int (pos 5)
keys (suc i) = int (pos 9)

abbrev copy : Buffer
copy = record (make_buffer key_page) { block = some file_of_words; pins = 1 }

abbrev reader : Transaction
reader = record (transaction 1 (pos 7)) {
  list = record (transaction 1 (pos 7)).list {
    buffers = (file_of_words, copy) ∷ [];
    pins = file_of_words ∷ [];
  };
  cm = record {
    table = (file_of_words, pos 1) ∷ [];
    locks = (file_of_words, shared) ∷ [];
    mtx_held = false;
  };
}

reader-HasCopy : HasCopy reader file_of_words copy
unfolding find_mode find_copy same_block same_text
reader-HasCopy = record { idle = refl; mode = shared; locked = refl; copy = refl }

abbrev page_of_keys : BtreePage
page_of_keys = record {
  curr_blk = file_of_words;
  layout = record {
    schema = record {
      fields = text "dataval" ∷ [];
      info = (text "dataval", record { type = integer; length = pos 0 }) ∷ [];
    };
    offsets = (text "dataval", pos 0) ∷ [];
    slot_size = pos 4;
  };
}

two_keys : get_num_recs (transaction_ops nobody) page_of_keys reader ≡ (ok (pos 2), reader)
unfolding get_num_recs get_int
two_keys = tx_get_int-HasCopy nobody reader file_of_words copy (pos 4) reader-HasCopy

key_at :
    (i : ℕ)
    → i < 2
    → get_data_val (transaction_ops nobody) page_of_keys (pos i) reader ≡ (ok (keys i), reader)
unfolding get_data_val get_int same_text
key_at zero h =
    rw (get_data_val, tx_get_int-HasCopy nobody reader file_of_words copy (pos 8) reader-HasCopy)
      refl
key_at (suc zero) h =
    rw (get_data_val, tx_get_int-HasCopy nobody reader file_of_words copy (pos 12) reader-HasCopy)
      refl
key_at (suc (suc i)) h = absurd (omega arith)

reader-Keyed : Keyed (transaction_ops nobody) page_of_keys 2 keys
reader-Keyed = record {
  IsStanding = λ t. t ≡ reader;
  count = λ t e. rw e (ap (λ x. x.0) two_keys, ap (λ x. x.1) two_keys);
  key = λ t i e h. rw e (ap (λ x. x.0) (key_at i h), ap (λ x. x.1) (key_at i h));
}

-- No record has the key 7.
find_slot_before-FirstKey_example :
    (j : ℕ) × ((find_slot_before (transaction_ops nobody) 3 page_of_keys (int (pos 7)) reader).0
      ≡ ok (pos j -ℤ pos 1))
    × FirstKey keys (int (pos 7)) 2 j
    × ((find_slot_before (transaction_ops nobody) 3 page_of_keys (int (pos 7)) reader).1 ≡ reader)
unfolding reader-Keyed
find_slot_before-FirstKey_example =
    find_slot_before-FirstKey (transaction_ops nobody) page_of_keys 2 keys (int (pos 7)) reader
      reader-Keyed (omega arith) refl

choose_split-inside_example :
    (j : ℕ) × ((choose_split (transaction_ops nobody) 2 page_of_keys (keys 0) reader).0
      ≡ ok (pos (suc j), keys (suc j)))
    × (suc j < 2)
    × (same_constant (keys j) (keys (suc j)) ≡ false)
    × ((choose_split (transaction_ops nobody) 2 page_of_keys (keys 0) reader).1 ≡ reader)
unfolding reader-Keyed same_constant
choose_split-inside_example =
    choose_split-inside (transaction_ops nobody) page_of_keys 2 keys 2 reader reader-Keyed
      (omega arith) refl (omega arith) refl
