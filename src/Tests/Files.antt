-- ===== src/Tests/Files.antt =====
-- Concrete files of two blocks of 16 bytes.
use myc_db.Prelude.{List, ◌≡◌, true, refl, [], ◌∷◌, arith, replicate, pos, ok, text, same_text}
use myc_db.File.Page.{Page}
use myc_db.File.Stream.{opened}
use myc_db.File.Manager.{FileMgr, get_file_handler, read_page, write_page, append}
use myc_db.File.Manager.Handlers.{Holds}
use myc_db.File.Manager.Healthy.{block}
use myc_db.File.Manager.Laws.{append-Holds, read_page-write_page}
use myc_db.File.Manager.Frame.{
  read_page-write_page_other, read_page_past_end, Access, reads, writes, AllThrow,
}

abbrev pub zeros_16 : Page
zeros_16 = record { buffer = replicate 16 0 }

abbrev pub ones_16 : Page
ones_16 = record { buffer = replicate 16 1 }

abbrev pub files : FileMgr
files = record {
  disk = [];
  opened_files = (text "a", opened (replicate 32 0)) ∷ (text "b", opened (replicate 16 5)) ∷ [];
  block_size = pos 16;
  is_new = true;
  openable = λ f. true;
}

pub a-Holds : Holds files (text "a") (replicate 32 0)
unfolding get_file_handler same_text
a-Holds = record { stream = opened (replicate 32 0); handler = refl; sound = refl; content = refl }

b-Holds : Holds files (text "b") (replicate 16 5)
unfolding get_file_handler same_text
b-Holds = record { stream = opened (replicate 16 5); handler = refl; sound = refl; content = refl }

read_page-write_page_example :
    (read_page (block (text "a") 1) zeros_16 (write_page (block (text "a") 1) ones_16 files).1).0
    ≡ ok ones_16
read_page-write_page_example =
    read_page-write_page files (text "a") (replicate 32 0) 16 1 ones_16 zeros_16 a-Holds refl
      (omega arith) (omega arith) refl refl

read_page-write_page_other_example :
    (read_page (block (text "a") 0) zeros_16 (write_page (block (text "a") 1) ones_16 files).1).0
    ≡ (read_page (block (text "a") 0) zeros_16 files).0
read_page-write_page_other_example =
    read_page-write_page_other files (text "a") (replicate 32 0) 16 1 0 ones_16 zeros_16 a-Holds
      refl (omega arith) (omega arith) (omega arith) (λ e. cc) refl refl

-- Block 3 is not there; block 0, which is, cannot be read after it.
abbrev three_calls : List Access
three_calls = reads 0 ones_16 ∷ writes 1 ones_16 ∷ reads 1 ones_16 ∷ []

read_page_past_end_example :
    let r = read_page (block (text "a") 3) ones_16 files in
    (r.0 ≡ ok zeros_16) × AllThrow (text "a") three_calls r.1
read_page_past_end_example =
    read_page_past_end files (text "a") (replicate 32 0) 16 3 ones_16 three_calls a-Holds refl
      (omega arith) (omega arith) refl
      (omega arith, refl, (omega arith, refl, (omega arith, refl, tt))) (omega arith)

append-Holds_example :
    ((append (text "a") files).0 ≡ ok (block (text "a") 2))
    × Holds (append (text "a") files).1 (text "a") (replicate 48 0)
append-Holds_example =
    append-Holds files (text "a") (replicate 32 0) 16 2 a-Holds refl (omega arith) (omega arith)
      refl
