-- ===== src/Tests/Logs.antt =====
-- A concrete log: one block of 16 bytes, with one record of four bytes.
use myc_db.Prelude.{
  ◌≡◌, true, refl, some, [], ◌∷◌, arith, replicate, pos, ok, err, io_error, text, same_text,
}
use myc_db.File.Page.{Page, get_int, get_bytes}
use myc_db.File.Stream.{opened}
use myc_db.File.Manager.{FileMgr, get_file_handler}
use myc_db.File.Manager.Handlers.{Holds}
use myc_db.File.Manager.Healthy.{block}
use myc_db.Log.Iterator.{LogIterator, read_all}
use myc_db.Log.Manager.{LogStore, iterator, append, make_log_mgr}
use myc_db.Log.Invariant.{IsLog}
use myc_db.Log.Extend.{Extends, append-IsLog}
use myc_db.Log.Start.{make_log_mgr_empty}
use myc_db.Log.RoundTrip.{read_all-iterator}

abbrev log_files : FileMgr
log_files = record {
  disk = [];
  opened_files = (text "log", opened (replicate 16 0)) ∷ [];
  block_size = pos 16;
  is_new = true;
  openable = λ f. true;
}

abbrev one_record : Page
one_record = record { buffer = 8 ∷ 0 ∷ 0 ∷ 0 ∷ 0 ∷ 0 ∷ 0 ∷ 0 ∷ 4 ∷ 0 ∷ 0 ∷ 0 ∷ 9 ∷ 8 ∷ 7 ∷ 6 ∷ [] }

abbrev no_record : Page
no_record = record { buffer = 16 ∷ 0 ∷ 0 ∷ 0 ∷ 0 ∷ 0 ∷ 0 ∷ 0 ∷ 0 ∷ 0 ∷ 0 ∷ 0 ∷ 0 ∷ 0 ∷ 0 ∷ 0 ∷ [] }

abbrev pub store : Page → LogStore
store p = record {
  fm = log_files;
  lm = record {
    log_file = text "log";
    log_page = p;
    cur_blk = block (text "log") 0;
    latest_lsn = pos 1;
    last_saved_lsn = pos 0;
  };
}

pub log-Holds : Holds log_files (text "log") (replicate 16 0)
unfolding get_file_handler same_text
log-Holds = record {
  stream = opened (replicate 16 0);
  handler = refl;
  sound = refl;
  content = refl;
}

store-IsLog : IsLog (store one_record) 16 0 [] ((9 ∷ 8 ∷ 7 ∷ 6 ∷ []) ∷ [])
unfolding get_int get_bytes
store-IsLog = record {
  width = refl;
  words = refl;
  bytes = replicate 16 0;
  file = log-Holds;
  whole = refl;
  range = omega arith;
  here = refl;
  size = refl;
  page = record { start = 8; top = refl; low = omega arith; stored = (refl, refl, refl) };
  older = refl;
}

read_all-iterator_example :
    (it : LogIterator) × ((iterator (store one_record)).0 ≡ ok it)
    × ((read_all 2 it (iterator (store one_record)).1.fm).0 ≡ ok (some ((9 ∷ 8 ∷ 7 ∷ 6 ∷ []) ∷ [])))
read_all-iterator_example =
    read_all-iterator (store one_record) 16 0 [] ((9 ∷ 8 ∷ 7 ∷ 6 ∷ []) ∷ []) store-IsLog

-- The page is full: the second record starts a block.
append-IsLog_example :
    Extends
      (store one_record)
      16
      ((9 ∷ 8 ∷ 7 ∷ 6 ∷ []) ∷ [])
      (1 ∷ 2 ∷ 3 ∷ 4 ∷ [])
      (append (1 ∷ 2 ∷ 3 ∷ 4 ∷ []) (store one_record))
append-IsLog_example =
    append-IsLog (store one_record) 16 0 [] ((9 ∷ 8 ∷ 7 ∷ 6 ∷ []) ∷ []) (1 ∷ 2 ∷ 3 ∷ 4 ∷ [])
      store-IsLog refl (omega arith) (omega arith)

-- A log file without blocks.
abbrev empty_log_files : FileMgr
empty_log_files = record log_files { opened_files = (text "log", opened []) ∷ [] }

empty_log-Holds : Holds empty_log_files (text "log") []
unfolding get_file_handler same_text
empty_log-Holds = record { stream = opened []; handler = refl; sound = refl; content = refl }

make_log_mgr_empty_example : (make_log_mgr (text "log") empty_log_files).0 ≡ err io_error
make_log_mgr_empty_example =
    make_log_mgr_empty empty_log_files (text "log") 16 empty_log-Holds refl (omega arith)
      (omega arith)
