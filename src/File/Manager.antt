-- ===== src/File/Manager.antt =====
-- The file manager: src/libs/dbcore/file/file_mgr.{h,cpp}. The calls run one at a time, which the
-- mutexes of the source see to. `openable` is what the file system says to opening a file.
pub mod Handlers
pub mod Healthy
pub mod Laws
pub mod Frame
use myc_db.Prelude.{
  ℕ, ◌+◌, ◌/◌, ◌*◌, ◌≡◌, Bool, true, false, ◌&&◌, not, Option, none, some, List, [], ◌∷◌, map, ltb,
  leb, ◌==◌, ◌-◌, if◌then◌else◌, length, replicate, take, keep, ℤ, pos, negsuc, ◌*ℤ◌, ltb_ℤ, in_int,
  signed, word_of, pos_part, neg_part, Error, io_error, runtime, undefined, Result, ok, err, Op,
  Text, text, same_text,
}
use myc_db.File.Page.{Page}
use myc_db.File.Block.{BlockId}
use myc_db.File.Stream.{Stream, opened, good, seekg, seekg_end, seekp, tellg, read, write}

pub record FileMgr : Type 0 where
  pub disk : List (Text × List ℕ)
  pub opened_files : List (Text × Stream)
  pub block_size : ℤ
  pub is_new : Bool
  pub openable : Text → Bool

-- `filename.find("temp") == 0`.
pub is_temp : Text → Bool
is_temp name = same_text (take 4 name) (text "temp")

-- The constructor: a missing directory is created, and temporary files are removed.
unfoldable pub make_file_mgr : Option (List (Text × List ℕ)) → ℤ → (Text → Bool) → FileMgr
unfolding is_temp
make_file_mgr none blk_size openable = record {
  disk = [];
  opened_files = [];
  block_size = blk_size;
  is_new = true;
  openable = openable;
}
make_file_mgr (some files) blk_size openable = record {
  disk = keep (λ (name, bytes). not (is_temp name)) files;
  opened_files = [];
  block_size = blk_size;
  is_new = false;
  openable = openable;
}

module _ {V : Type 0} where
  unfoldable pub lookup : Text → List (Text × V) → Option V
  lookup k [] = none
  lookup k ((j, v) ∷ m) = if same_text j k then some v else lookup k m

  unfoldable pub insert : Text → V → List (Text × V) → List (Text × V)
  insert k v [] = (k, v) ∷ []
  insert k v ((j, w) ∷ m) = if same_text j k then (k, v) ∷ m else (j, w) ∷ insert k v m

  unfoldable pub get_or : Option V → V → V
  get_or none d = d
  get_or (some v) d = v

-- `get_file_handler`: the open stream of a file, which is opened, and created if missing, at need.
unfoldable pub get_file_handler : FileMgr → Text → Result Stream
unfolding lookup get_or
get_file_handler fm filename = elim (lookup filename fm.opened_files) [
  | some s ↦ ok s
  | none ↦
      if fm.openable filename
      then ok (opened (get_or (lookup filename fm.disk) []))
      else err runtime
]

pub put_handler : FileMgr → Text → Stream → FileMgr
put_handler fm filename s = record fm { opened_files = insert filename s fm.opened_files }

-- A call on the handler of a file.
pub finish : FileMgr → Text → {A : Type 0} → Result A × Stream → Result A × FileMgr
unfolding put_handler
finish fm filename (r, s) = (r, put_handler fm filename s)

unfoldable pub with_handler : {A : Type 0} → Text → (Stream → Result A × Stream) → Op FileMgr A
unfolding get_file_handler finish
with_handler filename f fm = elim (get_file_handler fm filename) [
  | ok s ↦ finish fm filename (f s)
  | err e ↦ (err e, fm)
]

-- An `int` product: overflow is undefined.
unfoldable pub mul_int : ℤ → ℤ → Result ℤ
mul_int a b = if in_int (a *ℤ b) then ok (a *ℤ b) else err undefined

-- The size of a block as the count of bytes to copy; a page shorter than that is overrun.
unfoldable pub copy_size : ℤ → Page → Result ℕ
copy_size (pos n) p = if leb n (length p.buffer) then ok n else err undefined
copy_size (negsuc n) p = err undefined

-- `file_mgr::read` on the open stream: at the end of the file the page is filled with zeros.
unfoldable pub check_read : Page → List ℕ × Stream → Result Page × Stream
check_read p (buffer, s) =
    if s.fail
    then if s.eof
      then (ok (record { buffer = replicate (length p.buffer) 0 }), s)
      else (err io_error, s)
    else (ok (record { buffer = buffer }), s)

unfoldable pub read_block : ℤ → ℤ → Page → Stream → Result Page × Stream
unfolding mul_int copy_size seekg read check_read
read_block block_size blk_num p s = elim (mul_int blk_num block_size) [
  | err e ↦ (err e, s)
  | ok start ↦ elim (copy_size block_size p) [
    | err e ↦ (err e, seekg start s)
    | ok n ↦ check_read p (read n p.buffer (seekg start s))
  ]
]

unfoldable pub read_page : BlockId → Page → Op FileMgr Page
unfolding with_handler read_block
read_page blk p fm = with_handler blk.filename (read_block fm.block_size blk.blk_num p) fm

-- `file_mgr::write` on the open stream.
unfoldable pub check_write : {A : Type 0} → A → Stream → Result A × Stream
check_write a s = if good s then (ok a, s) else (err io_error, s)

unfoldable pub write_block : ℤ → ℤ → Page → Stream → Result (Unit {0}) × Stream
unfolding mul_int copy_size seekp write check_write
write_block block_size blk_num p s = elim (mul_int blk_num block_size) [
  | err e ↦ (err e, s)
  | ok start ↦ elim (copy_size block_size p) [
    | err e ↦ (err e, seekp start s)
    | ok n ↦ check_write tt (write (take n p.buffer) (seekp start s))
  ]
]

unfoldable pub write_page : BlockId → Page → Op FileMgr (Unit {0})
unfolding with_handler write_block
write_page blk p fm = with_handler blk.filename (write_block fm.block_size blk.blk_num p) fm

-- `file.tellg() / block_size`, which cuts towards zero and traps on zero.
negate : ℕ → ℤ
negate n = if n == 0 then pos 0 else negsuc (n - 1)

-- `static_cast<int>`.
abbrev pub cut_int : ℤ → ℤ
cut_int z = signed (word_of z)

unfoldable pub count_blocks : ℤ → ℤ → Result ℤ
unfolding negate
count_blocks (pos n) (pos b) = if b == 0 then err undefined else ok (cut_int (pos (n / b)))
count_blocks (negsuc n) (pos b) =
    if b == 0 then err undefined else ok (cut_int (negate ((n + 1) / b)))
count_blocks (pos n) (negsuc b) = ok (cut_int (negate (n / (b + 1))))
count_blocks (negsuc n) (negsuc b) = ok (cut_int (pos ((n + 1) / (b + 1))))

-- `file_mgr::append` on the open stream: a block of zeros behind the last whole block.
pub append_zeros : ℤ → ℤ → Stream → Result ℤ × Stream
append_zeros block_size n s = elim (mul_int n block_size) [
  | err e ↦ (err e, s)
  | ok start ↦ check_write n (write (replicate (pos_part block_size) 0) (seekp start s))
]

unfoldable pub append_block : ℤ → Stream → Result ℤ × Stream
unfolding append_zeros mul_int count_blocks seekg_end seekp tellg write check_write
append_block block_size s =
    if ltb_ℤ block_size (pos 0)
    then (err runtime, s)
    else elim (count_blocks (tellg (seekg_end s)) block_size) [
      | err e ↦ (err e, seekg_end s)
      | ok n ↦ append_zeros block_size n (seekg_end s)
    ]

-- `return std::make_unique<block_id>(filename, new_blk_num);`
pub name_block : Text → Result ℤ × FileMgr → Result BlockId × FileMgr
name_block filename (ok n, fm) = (ok (record { filename = filename; blk_num = n }), fm)
name_block filename (err e, fm) = (err e, fm)

unfoldable pub append : Text → Op FileMgr BlockId
unfolding with_handler append_block name_block
append filename fm = name_block filename (with_handler filename (append_block fm.block_size) fm)

-- `file_mgr::len` on the open stream.
unfoldable pub len_blocks : ℤ → Stream → Result ℤ × Stream
unfolding count_blocks seekg_end tellg
len_blocks block_size s = (count_blocks (tellg (seekg_end s)) block_size, seekg_end s)

unfoldable pub len : Text → Op FileMgr ℤ
unfolding with_handler len_blocks
len filename fm = with_handler filename (len_blocks fm.block_size) fm
