-- ===== src/Index/HashIndex.antt =====
-- A hash index: src/libs/dbcore/index/hash/hash_index.{hpp,cpp}. Each bucket is a table, which a table
-- scan goes through.
use myc_db.Prelude.{
  ℕ, zero, suc, ◌/◌, ◌%◌, Bool, true, false, ◌++◌, ltb, if◌then◌else◌, ℤ, pos, signed, ◌^◌, size_of,
  deadlock, undefined, Result, ok, err, ◌>>=◌, Op, bind, return, lift, continue, Text, text,
}
use myc_db.Query.Constant.{Constant, int, same_constant, hash_code, show_int}
use myc_db.Record.Schema.{RecordId, same_rid}
use myc_db.Scan.{UpdateScan}
use myc_db.Index.Contract.{Index}
pub mod Buckets
pub mod Answers

-- The tables of the buckets: the constructor of a scan, its methods, and what it leaves of the
-- transaction.
pub record Tables (B T : Type 0) : Type 0 where
  pub open_table : Text → B → Result (Unit {0}) × T
  pub table : UpdateScan T
  pub leave : T → B

-- `m_ts`: a null pointer, or the scan of a bucket, with the transaction.
pub data Bucket (B T : Type 0) : Type 0 where
  shut : B → Bucket B T
  opened : T → Bucket B T

pub record HashIndex (B T : Type 0) : Type 0 where
  pub buckets_num : ℕ
  pub idx_name : Text
  pub search_key : Constant
  pub bucket : Bucket B T

-- The constructor.
unfoldable pub make_hash_index : {B T : Type 0} → Text → B → HashIndex B T
make_hash_index name b = record {
  buckets_num = 100;
  idx_name = name;
  search_key = int (pos 0);
  bucket = shut b;
}

unfoldable pub set_buckets_num : {B T : Type 0} → ℕ → HashIndex B T → HashIndex B T
set_buckets_num n h = if ltb h.buckets_num n then record h { buckets_num = n } else h

-- `m_idxname + std::to_string(bucket)`, where the rest of the hash is converted to an `int`.
unfoldable pub bucket_name : ℕ → Text → Constant → Result Text
unfolding hash_code show_int
bucket_name buckets_num idx_name key =
    hash_code key >>= λ z. ok (idx_name ++ show_int (signed (size_of z % buckets_num % 2 ^ 32)))

module _ {B T : Type 0} (tables : Tables B T) where
  abbrev pub base_of : Bucket B T → B
  base_of (shut b) = b
  base_of (opened t) = tables.leave t

  abbrev pub put_bucket : Bucket B T → Op (HashIndex B T) (Unit {0})
  put_bucket x h = (ok tt, record h { bucket = x })

  -- `m_ts->…`, where `m_ts` may be a null pointer.
  abbrev pub on_table : {A : Type 0} → Op T A → Op (HashIndex B T) A
  on_table call h = elim h.bucket [
    | shut b ↦ (err undefined, h)
    | opened t ↦ ((call t).0, record h { bucket = opened (call t).1 })
  ]

  abbrev pub read_table : {A : Type 0} → (T → Result A) → Op (HashIndex B T) A
  read_table get h = elim h.bucket [ shut b ↦ (err undefined, h) | opened t ↦ (get t, h) ]

  -- `m_ts.reset()`.
  abbrev pub drop_table : Op (HashIndex B T) (Unit {0})
  drop_table h = put_bucket (shut (base_of h.bucket)) h

  unfoldable pub hash_close : Op (HashIndex B T) (Unit {0})
  hash_close h = elim h.bucket [
    | shut b ↦ (ok tt, h)
    | opened t ↦ bind (on_table tables.table.scan.close) (λ _. drop_table) h
  ]

  -- `m_ts = std::make_unique<record::table_scan>(…)`.
  unfoldable pub open_bucket : Text → Op (HashIndex B T) (Unit {0})
  open_bucket name h =
      let r = tables.open_table name (base_of h.bucket) in
      (r.0, record h { bucket = elim r.0 [ ok u ↦ opened r.1 | err e ↦ shut (tables.leave r.1) ] })

  unfoldable pub hash_first : Constant → Op (HashIndex B T) (Unit {0})
  unfolding hash_close bucket_name open_bucket
  hash_first key = bind hash_close λ _ h.
      let keyed = record h { search_key = key } in
      continue (bucket_name h.buckets_num h.idx_name key, keyed) open_bucket

  -- The loop of `next`, with a bound on its rounds.
  unfoldable pub hash_next : ℕ → Op (HashIndex B T) Bool
  unfolding same_constant
  hash_next zero h = (err deadlock, h)
  hash_next (suc rounds) h =
      bind (on_table tables.table.scan.next)
        (λ more. elim more [
          | false ↦ return false
          | true ↦ bind (read_table (tables.table.scan.get_val (text "dataval"))) λ v g.
              elim (same_constant v g.search_key) [
                | true ↦ (ok true, g)
                | false ↦ hash_next rounds g
              ]
        ])
        h

  unfoldable pub hash_rid : Op (HashIndex B T) RecordId
  hash_rid = bind (read_table (tables.table.scan.get_int (text "block"))) λ b.
      bind (read_table (tables.table.scan.get_int (text "id")))
        λ i. return (record { blk_num = b; slot = i })

  unfoldable pub hash_insert : Constant → RecordId → Op (HashIndex B T) (Unit {0})
  unfolding hash_first
  hash_insert key rid = bind (hash_first key) λ _. bind (on_table tables.table.insert) λ _.
      bind (on_table (tables.table.set_int (text "block") rid.blk_num)) λ _.
        bind (on_table (tables.table.set_int (text "id") rid.slot))
          λ _. on_table (tables.table.set_val (text "dataval") key)

  -- The loop of `delete_record`: `rounds` bounds each search, `times` the records with the key.
  unfoldable pub delete_match : ℕ → ℕ → RecordId → Op (HashIndex B T) (Unit {0})
  unfolding hash_next hash_rid same_rid
  delete_match rounds zero rid h = (err deadlock, h)
  delete_match rounds (suc times) rid h =
      bind (hash_next rounds)
        (λ more. elim more [
          | false ↦ return tt
          | true ↦ bind hash_rid λ r. elim (same_rid r rid) [
            | true ↦ on_table tables.table.delete_record
            | false ↦ delete_match rounds times rid
          ]
        ])
        h

  unfoldable pub hash_delete : ℕ → ℕ → Constant → RecordId → Op (HashIndex B T) (Unit {0})
  unfolding hash_first delete_match
  hash_delete rounds times key rid = bind (hash_first key) λ _. delete_match rounds times rid

  unfoldable pub hash_methods : ℕ → ℕ → Index (HashIndex B T)
  unfolding hash_first hash_next hash_rid hash_insert hash_delete hash_close
  hash_methods rounds times = record {
    before_first = hash_first;
    next = hash_next rounds;
    get_data_rid = hash_rid;
    insert = hash_insert;
    delete_record = hash_delete rounds times;
    close = hash_close;
  }
