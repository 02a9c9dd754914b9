-- ===== src/Tx/LockTable.antt =====
-- The lock table and the lock manager of a transaction: src/libs/dbcore/tx/concurrency. Each call
-- holds the mutex; what the other threads do during its waits is an argument, and after the last
-- wait the time is up. The value of a block is the number of shared locks, or -1 for an exclusive one.
use myc_db.Prelude.{
  Bool, true, false, List, [], ◌∷◌, Option, none, some, if◌then◌else◌, ℤ, pos, negsuc, ◌+ℤ◌, ◌-ℤ◌,
  ltb_ℤ, lock_abort, deadlock, ok, err, Op, continue,
}
use myc_db.File.Block.{BlockId, same_block}

-- `locks`: the keys are different.
abbrev pub LockTable : Type 0
LockTable = List (BlockId × ℤ)

unfoldable pub get_lock_value : LockTable → BlockId → ℤ
get_lock_value [] blk = pos 0
get_lock_value ((c, v) ∷ t) blk = if same_block c blk then v else get_lock_value t blk

-- `locks[blk] = value`.
unfoldable pub set_lock_value : LockTable → BlockId → ℤ → LockTable
set_lock_value [] blk v = (blk, v) ∷ []
set_lock_value ((c, w) ∷ t) blk v =
    if same_block c blk then (c, v) ∷ t else (c, w) ∷ set_lock_value t blk v

-- `locks.erase(blk)`.
unfoldable pub erase_lock : LockTable → BlockId → LockTable
erase_lock [] blk = []
erase_lock ((c, w) ∷ t) blk =
    if same_block c blk then erase_lock t blk else (c, w) ∷ erase_lock t blk

unfoldable pub has_x_lock : LockTable → BlockId → Bool
has_x_lock t blk = ltb_ℤ (get_lock_value t blk) (pos 0)

unfoldable pub has_s_locks : LockTable → BlockId → Bool
has_s_locks t blk = ltb_ℤ (pos 1) (get_lock_value t blk)

-- The state of the table when the wait for a test to fail is over.
unfoldable pub wait_while :
    (LockTable → Bool) → List (LockTable → LockTable) → LockTable → LockTable
wait_while busy [] t = t
wait_while busy (others ∷ waits) t =
    let later = wait_while busy waits (others t) in if busy t then later else t

unfoldable pub s_lock : List (LockTable → LockTable) → BlockId → Op LockTable (Unit {0})
unfolding wait_while has_x_lock get_lock_value set_lock_value
s_lock waits blk t =
    let u = wait_while (λ v. has_x_lock v blk) waits t in
    if has_x_lock u blk
    then (err lock_abort, u)
    else (ok tt, set_lock_value u blk (get_lock_value u blk +ℤ pos 1))

unfoldable pub x_lock : List (LockTable → LockTable) → BlockId → Op LockTable (Unit {0})
unfolding wait_while has_s_locks get_lock_value set_lock_value
x_lock waits blk t =
    let u = wait_while (λ v. has_s_locks v blk) waits t in
    if has_s_locks u blk then (err lock_abort, u) else (ok tt, set_lock_value u blk (negsuc 0))

unfoldable pub unlock : BlockId → LockTable → LockTable
unfolding get_lock_value set_lock_value erase_lock
unlock blk t =
    if ltb_ℤ (pos 1) (get_lock_value t blk)
    then set_lock_value t blk (get_lock_value t blk -ℤ pos 1)
    else erase_lock t blk

-- A lock manager: the mode that the transaction holds each block in, whether its own mutex is held
-- by the call that runs, and the table that all share.
pub data Mode : Type 0 where
  shared exclusive : Mode

pub record ConcurrencyMgr : Type 0 where
  pub table : LockTable
  pub locks : List (BlockId × Mode)
  pub mtx_held : Bool

unfoldable pub find_mode : List (BlockId × Mode) → BlockId → Option Mode
find_mode [] blk = none
find_mode ((c, m) ∷ l) blk = if same_block c blk then some m else find_mode l blk

unfoldable pub put_mode : List (BlockId × Mode) → BlockId → Mode → List (BlockId × Mode)
put_mode [] blk m = (blk, m) ∷ []
put_mode ((c, n) ∷ l) blk m = if same_block c blk then (c, m) ∷ l else (c, n) ∷ put_mode l blk m

abbrev pub with_table : {A : Type 0} → Op LockTable A → Op ConcurrencyMgr A
with_table call c = ((call c.table).0, record c { table = (call c.table).1 })

-- `std::lock_guard lock(mtx)`, which is not recursive, and its release at the end of the scope.
unfoldable pub guarded : {A : Type 0} → Op ConcurrencyMgr A → Op ConcurrencyMgr A
guarded call c =
    if c.mtx_held
    then (err deadlock, c)
    else let r = call (record c { mtx_held = true }) in (r.0, record r.1 { mtx_held = false })

unfoldable pub holds_x : BlockId → Op ConcurrencyMgr Bool
unfolding guarded find_mode
holds_x blk =
    guarded λ c. (ok (elim (find_mode c.locks blk) [ some exclusive ↦ true | _ ↦ false ]), c)

record_mode : BlockId → Mode → Op ConcurrencyMgr (Unit {0})
record_mode blk m c = (ok tt, record c { locks = put_mode c.locks blk m })

unfoldable pub take_s_lock : List (LockTable → LockTable) → BlockId → Op ConcurrencyMgr (Unit {0})
unfolding guarded find_mode record_mode s_lock
take_s_lock waits blk = guarded λ c. elim (find_mode c.locks blk) [
  | some m ↦ (ok tt, c)
  | none ↦ continue (with_table (s_lock waits blk) c) (λ _. record_mode blk shared)
]

upgrade : List (LockTable → LockTable) → BlockId → Op ConcurrencyMgr (Unit {0})
unfolding record_mode x_lock
upgrade waits blk c = continue (with_table (x_lock waits blk) c) (λ _. record_mode blk exclusive)

unfoldable pub take_x_lock :
    List (LockTable → LockTable)
    → List (LockTable → LockTable)
    → BlockId
    → Op ConcurrencyMgr (Unit {0})
unfolding guarded find_mode holds_x upgrade s_lock
take_x_lock s_waits x_waits blk = guarded λ c. continue (holds_x blk c) λ held d.
    if held then (ok tt, d) else elim (find_mode d.locks blk) [
      | some m ↦ upgrade x_waits blk d
      | none ↦ continue (with_table (s_lock s_waits blk) d) (λ _. upgrade x_waits blk)
    ]

unlock_all : List (BlockId × Mode) → LockTable → LockTable
unfolding unlock
unlock_all [] t = t
unlock_all ((blk, m) ∷ l) t = unlock_all l (unlock blk t)

unfoldable pub release : Op ConcurrencyMgr (Unit {0})
unfolding guarded unlock_all
release = guarded λ c. (ok tt, record c { table = unlock_all c.locks c.table; locks = [] })
