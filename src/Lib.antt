-- ===== src/Lib.antt =====
-- MycDb, a relational database engine in C++: a model of its core library src/libs/dbcore, and what
-- holds of it.
--
-- The parts and how they meet. The file manager (src/libs/dbcore/file) reads and writes blocks of
-- files through pages of bytes. The log manager (log) appends records to blocks of a log file and
-- reads them back, newest first. The buffer manager (buffer) keeps blocks in a pool of pinned pages,
-- and asks the log to flush before it writes a page. The lock table and the lock manager of a transaction
-- (tx/concurrency) hand out shared and exclusive locks on blocks. A transaction (tx) reads and writes
-- pinned blocks under its locks, and the recovery manager (tx/recovery) writes records of what it does
-- to the log and undoes them from there. Schemas and layouts (record) place the fields of a record, and
-- record pages and table scans put records in the slots of blocks, through a transaction. Constants,
-- expressions, terms and predicates (query) select rows, and scans (scan) select, project and multiply
-- them. The lexer and the parser (parse) read SQL text. Multi-buffer operations (multibuffer) ask how
-- many buffers they may take. A scan of groups (materialize) reads runs of equal rows and aggregates
-- them, and a sort scan merges two runs. A B-tree (index/btree) keeps keys in the slots of blocks, in
-- leaves and in directories that lead to them, a hash index (index/hash) has a table for each bucket of
-- keys, and index scans (index/scan) go from a key to the rows of a table. Plans
-- (query/plan) estimate what a scan will cost from the sizes of tables and indexes (metadata).
--
-- Which file models which part:
--   Prelude, Prelude/*: Boolean tests, lists and the C++ `int` over the native numbers, outcomes, and
--     operations on a state that may throw.
--   File/Block, File/Page: file/page/block_id.h, page.h and page.cpp. `get_int`, `set_int`,
--     `get_bytes`, `set_bytes`, `get_string`, `set_string` and `max_len` keep their names.
--   File/Stream, File/Manager: file/file_mgr.{h,cpp}. `read_page`, `write_page`, `append` and `len`
--     are `file_mgr::read`, `write`, `append` and `len`. A stream has its bytes, its position and the
--     bits `eof` and `fail`, as the standard says of `std::fstream`; what is written is in the file
--     at once, and the device never fails.
--   Log/Iterator, Log/Manager: log/log_iterator.h and log/log_mgr.h, with the same names.
--   Buffer, Buffer/Manager: buffer/buffer.h and buffer/buffer_mgr.{h,cpp}. A buffer of the pool is
--     named by its place.
--   Tx/LockTable: tx/concurrency/lock_table.h, and concurrency_mgr.h, where `take_s_lock`,
--     `take_x_lock` and `release` are `s_lock`, `x_lock` and `release`.
--   Tx/LogOps, Tx/Recovery: tx/log_ops.h and the records of tx/recovery. A record is a constructor of
--     `LogRecord`; `log_set_int` and so on are its `write_to_log`, `read_set_int` its constructor.
--   Tx/BufferList: tx/buffer_list.h. The list holds the copies of the buffers that the source makes.
--   Tx/Transaction: tx/transaction.{h,cpp} and the recovery manager. `tx_get_int` is
--     `transaction::get_int`, and so on; `undo_back` and `recover_back` are the loops over the log.
--   Tx/Access: what record pages use of a transaction, as a record of its methods over a state.
--   Record/Schema, Record/Layout: record/schema.h, record_id.h and layout.h.
--   Record/RecordPage, Record/TableScan: record/record_page.h and table_scan.{h,cpp}. `page_get_int` and
--     `table_get_int` are the `get_int` of each.
--   Scan, Scan/Select, Scan/Project, Scan/Product: the headers in scan. A scan is the record of its
--     methods over a state; a getter leaves the state as it is. Scan/Contract says what a scan keeps to at
--     each place, Scan/Passes and Index/Finds what its calls, or those of an index, give one after another.
--   Materialize/Aggregate: materialize/fn and aggregate_fn_factory.cpp.
--   Materialize/GroupBy: materialize/group_value.h and group_by_scan.h.
--   Materialize/SortScan, MergeJoin: materialize/record_comparator.h, sort_scan.h and
--     merge_join_scan.hpp. `sort_next` and `merge_next` are their `next`.
--   Query/Constant, Expression, Term, Predicate: the headers of these names in query. `holds`,
--     `reduction`, `find_constant` and `find_field` are the predicate's `is_satisfied`,
--     `calculate_reduction`, `equates_with_constant` and `equates_with_field`.
--   Metadata/StatInfo: metadata/stat_info.h and index_info.h. `stat_records` and `index_records` are the
--     `records_output` of each.
--   Query/Plan: query/plan and the plans of index/planners. A plan is the record of its estimates.
--   Parse/Lexer: parse/lexer.{hpp,cpp}.
--   Parse/Statement, Parse/Parser: parse/ops_data and parse/parser.{hpp,cpp}. `parse_query` is `query`,
--     and so on; `separated` is the body that the four list rules share.
--   Parse/PredParser: parse/pred_parser.hpp; `check_term` is `term`, and so on.
--   Multibuffer: multibuffer/buffer_needs.h.
--   Index/BtreePage: index/btree/bt_page.h. `insert_slot` and `delete_rec` are `insert` and
--     `delete_record`; `get_slot_int` is `get_int`, and so on.
--   Index/BtreeLeaf, BtreeDir, BtreeIndex: index/btree/bt_leaf.h, bt_dir.h, btree_index.{hpp,cpp} and
--     dir_entry.h. `leaf_next` is `btree_leaf::next`, `dir_insert` `btree_dir::insert`, and so on. A
--     page that is assigned or leaves its scope is closed, as its destructor does.
--   Index/HashIndex: index/hash/hash_index.{hpp,cpp}. `hash_next` is `hash_index::next`, and so on. The
--     tables of the buckets are an argument.
--   Index/Contract, Index/Scans: index/i_index.h and the headers of index/scan.
-- The other modules of each folder hold the lemmas and the theorems, and Tests their use at concrete
-- inputs.
--
-- Conventions and bounds. An `int` is an integer in the range of 32 bits, stored as a little-endian
-- word; `size_t` has 64 bits. A call that throws is an error value, with the state as it was left.
-- Undefined behaviour (a null pointer, an access outside of a buffer, an overflow of an `int`) and a
-- call that blocks for ever are error values of their own. Theorems on files ask that offsets stay
-- below 2 ^ 31, the range of the source's `int`. The number of the last log record is an integer without
-- bound, as a log below 2 ^ 31 bytes has fewer records. A wait on a condition variable is a list of what the
-- other threads do during it; the list ends when the time is up. Reading a log takes fuel: one round
-- more than there are records is enough. The rules of the parser that call themselves take fuel too: for
-- a list, two rounds more than there are characters left are enough. The loops over the log take one
-- round more than there are records, the search for a slot as many as the block has bytes, a selection
-- more than there are rows, a search in a bucket of a hash index more than the index has entries, and
-- `best_factor` as many as the size. The bit operations of hashes, text for messages and the wall clock
-- are not modelled.
--
-- Not modelled: the opening of plans, the tables of the metadata, temporary tables and the planners, which
-- stand on the parts above; the exceptions' classes and core.hpp, which assembles the managers; the
-- server, the SSH and Kerberos clients and the build scripts, which are input and output.
pub mod Prelude
pub mod File
pub mod Log
pub mod Buffer
pub mod Tx
pub mod Record
pub mod Query
pub mod Scan
pub mod Multibuffer
pub mod Index
pub mod Materialize
pub mod Metadata
pub mod Parse
mod Tests
