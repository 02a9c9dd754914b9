-- ===== src/Tests/Slots.antt =====
-- A block of two slots that a transaction has locked and pinned, a table scan, and numbers of buffers.
use myc_db.Prelude.{
  ℕ, zero, suc, ◌-◌, ◌*◌, ◌≤◌, ◌≡◌, refl, [], ◌∷◌, arith, none, some, false, ℤ, pos, negsuc, ok,
  err, undefined, return, ap, text, same_text,
}
use myc_db.File.Page.{Page, get_int, add_int}
use myc_db.File.Block.{same_block}
use myc_db.Buffer.{Buffer, make_buffer}
use myc_db.Record.Schema.{empty_schema}
use myc_db.Record.Layout.{Layout}
use myc_db.Record.RecordPage.{RecordPage, is_valid_slot, used, next_after, make_record_page}
use myc_db.Record.RecordPage.Search.{Flagged, Found, next_after-Found}
use myc_db.Record.TableScan.{
  TableScan, make_table_scan, table_first, table_next, table_insert, table_rid, move_to_rid, close,
}
use myc_db.Record.TableScan.Dangling.{make_table_scan-undefined}
use myc_db.Tx.LockTable.{shared, find_mode}
use myc_db.Tx.BufferList.{find_copy}
use myc_db.Tx.Transaction.{Transaction}
use myc_db.Tx.Access.{TxOps, transaction_ops}
use myc_db.Tx.Access.Locked.{HasCopy, tx_get_int-HasCopy}
use myc_db.Multibuffer.{best_factor}
use myc_db.Multibuffer.Bounds.{ceil, First, best_factor-First}
use myc_db.Tests.Transactions.{file_of_words, transaction, nobody}

-- The first slot is empty, the second used.
abbrev two_slots : Page
two_slots = record { buffer = 0 ∷ 0 ∷ 0 ∷ 0 ∷ 0 ∷ 0 ∷ 0 ∷ 0 ∷ 1 ∷ 0 ∷ 0 ∷ 0 ∷ 5 ∷ 0 ∷ 0 ∷ 0 ∷ [] }

abbrev flags : ℕ → ℤ
flags zero = pos 0
flags (suc i) = pos 1

abbrev copy : Buffer
copy = record (make_buffer two_slots) { block = some file_of_words; pins = 1 }

abbrev reader : Transaction
reader = record (transaction 1 (pos 7)) {
  list = record (transaction 1 (pos 7)).list {
    buffers = (file_of_words, copy) ∷ [];
    pins = file_of_words ∷ [];
  };
  cm = record {
    table = (file_of_words, pos 1) ∷ [];
    locks = (file_of_words, shared) ∷ [];
    mtx_held = false;
  };
}

reader-HasCopy : HasCopy reader file_of_words copy
unfolding find_mode find_copy same_block same_text
reader-HasCopy = record { idle = refl; mode = shared; locked = refl; copy = refl }

reader_flag :
    (i : ℕ)
    → suc i * 8 ≤ 16
    → ((transaction_ops nobody).get_int file_of_words (pos (i * 8)) reader).0 ≡ ok (flags i)
unfolding get_int
reader_flag zero h =
    rw (tx_get_int-HasCopy nobody reader file_of_words copy (pos 0) reader-HasCopy) refl
reader_flag (suc zero) h =
    rw (tx_get_int-HasCopy nobody reader file_of_words copy (pos 8) reader-HasCopy) refl
reader_flag (suc (suc i)) h = absurd (omega arith)

reader-Flagged : Flagged (transaction_ops nobody) file_of_words 8 16 flags
reader-Flagged = record {
  IsStanding = λ t. t ≡ reader;
  width = λ t e. rw e refl;
  flag = λ t i e h. rw e (
    reader_flag i h,
    ap (λ x. x.1)
        (tx_get_int-HasCopy nobody reader file_of_words copy (pos (i * 8)) reader-HasCopy),
  );
}

abbrev slots_of_8 : Layout
slots_of_8 = record { schema = empty_schema; offsets = []; slot_size = pos 8 }

abbrev slot_page : RecordPage
slot_page = record { blk = some file_of_words; layout = slots_of_8 }

next_after-Found_example :
    (j : ℤ) × ((next_after (transaction_ops nobody) 17 slot_page (negsuc 0) reader).0 ≡ ok j)
    × Found 8 16 flags used 0 j
    × ((next_after (transaction_ops nobody) 17 slot_page (negsuc 0) reader).1 ≡ reader)
unfolding reader-Flagged add_int
next_after-Found_example =
    next_after-Found (transaction_ops nobody) file_of_words 8 16 flags slot_page (negsuc 0) 0 reader
      reader-Flagged refl refl (omega arith) (omega arith) refl (omega arith) refl

-- A transaction on a table of one block, which does nothing.
abbrev idle_ops : TxOps (Unit {0})
idle_ops = record {
  pin = λ blk. return tt;
  unpin = λ blk. return tt;
  get_int = λ blk i. return (pos 0);
  get_str = λ blk i. return [];
  set_int = λ blk i v log. return tt;
  set_str = λ blk i v log. return tt;
  size = λ f. return (pos 1);
  append = λ f. return (record { filename = f; blk_num = pos 1 });
  block_size = λ s. pos 16;
}

abbrev started : TableScan (Unit {0})
started = record {
  base = tt;
  layout = slots_of_8;
  filename = text "t.tbl";
  rec_page = some (record { blk = none; layout = slots_of_8 });
  curr_slot = negsuc 0;
}

table_started : make_table_scan idle_ops 17 (text "t") slots_of_8 tt ≡ (ok tt, started)
unfolding make_table_scan make_record_page
table_started = refl

make_table_scan-undefined_example :
    ((table_first idle_ops 17 started).0 ≡ err undefined)
    × ((table_next idle_ops 17 1 started).0 ≡ err undefined)
    × ((table_insert idle_ops 17 1 started).0 ≡ err undefined)
    × ((table_rid idle_ops 17 started).0 ≡ err undefined)
    × ((move_to_rid idle_ops 17 (record { blk_num = pos 0; slot = pos 1 }) started).0
        ≡ err undefined)
    × ((close idle_ops 17 started).0 ≡ err undefined)
unfolding is_valid_slot
make_table_scan-undefined_example =
    make_table_scan-undefined idle_ops 16 1 (text "t") slots_of_8 tt started
      (record { blk = none; layout = slots_of_8 }) (record { blk_num = pos 0; slot = pos 1 })
      table_started refl refl

best_factor-First_example :
    (i k : ℕ) × (best_factor 7 (pos 5) (pos 7) ≡ ok k) × First (ceil 7) (5 - 2) 1 i k × (7 ≤ i * k)
best_factor-First_example = best_factor-First 5 7 7 (omega arith) (omega arith) (omega arith)
