-- ===== src/Tx/Exclusion.antt =====
-- Shared and exclusive locks exclude one another.
use myc_db.Prelude.{
  ℕ, suc, ◌≡◌, ◌≢◌, refl, ◌⊎◌, inl, inr, false, List, [], ◌∷◌, arith, if◌then◌else◌, Bool-cases, ℤ,
  pos, negsuc, ◌+ℤ◌, ◌-ℤ◌, ltb_ℤ, deadlock, ok, err,
}
use myc_db.File.Block.{BlockId, same_block, same_block→eq, same_block_refl}
use myc_db.Tx.LockTable.{
  LockTable, ConcurrencyMgr, get_lock_value, set_lock_value, erase_lock, s_lock, x_lock, unlock,
  take_x_lock,
}

-- `take_x_lock` holds the mutex of the manager when it asks whether the block is locked, and that
-- question takes the mutex again: no call of it ever ends.
pub take_x_lock_deadlock :
    (s_waits x_waits : List (LockTable → LockTable)) (blk : BlockId) (c : ConcurrencyMgr)
    → (take_x_lock s_waits x_waits blk c).0 ≡ err deadlock
unfolding take_x_lock
take_x_lock_deadlock s_waits x_waits blk c = ground arith

-- The value of each block after a value is set.
pub get_lock_value-set :
    (t : LockTable) (a b : BlockId) (v : ℤ)
    → get_lock_value (set_lock_value t a v) b ≡ (if same_block a b then v else get_lock_value t b)
unfolding get_lock_value set_lock_value
get_lock_value-set [] a b v = refl
get_lock_value-set ((c, w) ∷ t) a b v = elim (Bool-cases (same_block c a)) [
  | inl e ↦ ground (arith, same_block→eq c a e, get_lock_value-set t a b v)
  | inr e ↦
      ground
        (arith, same_block→eq c b, same_block→eq a b, same_block_refl c, get_lock_value-set t a b v)
]

pub get_lock_value-erase :
    (t : LockTable) (a b : BlockId)
    → get_lock_value (erase_lock t a) b ≡ (if same_block a b then pos 0 else get_lock_value t b)
unfolding get_lock_value erase_lock
get_lock_value-erase [] a b = ground arith
get_lock_value-erase ((c, w) ∷ t) a b = elim (Bool-cases (same_block c a)) [
  | inl e ↦ ground (arith, same_block→eq c a e, get_lock_value-erase t a b)
  | inr e ↦
      ground
        (arith, same_block→eq c b, same_block→eq a b, same_block_refl c, get_lock_value-erase t a b)
]

-- A block, and how many transactions hold it shared and exclusive.
pub record Owners : Type 0 where
  pub table : LockTable
  pub readers : ℕ
  pub writers : ℕ

-- What transactions do that follow the lock manager: an exclusive lock is asked for by one that
-- holds the block shared, and each gives back what it holds.
pub data Step (blk : BlockId) : Owners → Owners → Type 0 where
  reads :
      (t u : LockTable) (r w : ℕ)
      → s_lock [] blk t ≡ (ok tt, u)
      → Step blk
          (record { table = t; readers = r; writers = w })
          (record { table = u; readers = suc r; writers = w })
  upgrades :
      (t u : LockTable) (r w : ℕ)
      → x_lock [] blk t ≡ (ok tt, u)
      → Step blk
          (record { table = t; readers = suc r; writers = w })
          (record { table = u; readers = r; writers = suc w })
  stops_reading :
      (t : LockTable) (r w : ℕ)
      → Step blk
          (record { table = t; readers = suc r; writers = w })
          (record { table = unlock blk t; readers = r; writers = w })
  stops_writing :
      (t : LockTable) (r w : ℕ)
      → Step blk
          (record { table = t; readers = r; writers = suc w })
          (record { table = unlock blk t; readers = r; writers = w })

pub data Reach (blk : BlockId) (o : Owners) : Owners → Type 0 where
  here : Reach blk o o
  next : {p q : Owners} → Reach blk o p → Step blk p q → Reach blk o q

-- The value of the block counts its readers, or there is one writer alone.
abbrev pub IsExclusive : BlockId → Owners → Type 0
IsExclusive blk o =
    ((o.writers ≡ 0) × (get_lock_value o.table blk ≡ pos o.readers))
    ⊎ ((o.writers ≡ 1) × (o.readers ≡ 0) × (get_lock_value o.table blk ≡ negsuc 0))

value_set : (t : LockTable) (a : BlockId) (v : ℤ) → get_lock_value (set_lock_value t a v) a ≡ v
value_set t a v = rw (get_lock_value-set t a a v, same_block_refl a)

value_erase : (t : LockTable) (a : BlockId) → get_lock_value (erase_lock t a) a ≡ pos 0
value_erase t a = rw (get_lock_value-erase t a a, same_block_refl a)

s_lock-value :
    (t u : LockTable) (blk : BlockId)
    → s_lock [] blk t ≡ (ok tt, u)
    → (ltb_ℤ (get_lock_value t blk) (pos 0) ≡ false)
      × (get_lock_value u blk ≡ get_lock_value t blk +ℤ pos 1)
unfolding s_lock
s_lock-value t u blk e = ground (arith, value_set t blk (get_lock_value t blk +ℤ pos 1))

x_lock-value :
    (t u : LockTable) (blk : BlockId)
    → x_lock [] blk t ≡ (ok tt, u)
    → (ltb_ℤ (pos 1) (get_lock_value t blk) ≡ false) × (get_lock_value u blk ≡ negsuc 0)
unfolding x_lock
x_lock-value t u blk e = ground (arith, value_set t blk (negsuc 0))

unlock-value :
    (t : LockTable) (blk : BlockId)
    → get_lock_value (unlock blk t) blk
      ≡ (if ltb_ℤ (pos 1) (get_lock_value t blk) then get_lock_value t blk -ℤ pos 1 else pos 0)
unfolding unlock
unlock-value t blk =
    ground (arith, value_set t blk (get_lock_value t blk -ℤ pos 1), value_erase t blk)

Step-IsExclusive :
    {blk : BlockId} {p q : Owners} → Step blk p q → IsExclusive blk p → IsExclusive blk q
Step-IsExclusive {blk} (reads t u r w e) i = ground (arith, s_lock-value t u blk e, i)
Step-IsExclusive {blk} (upgrades t u r w e) i = ground (arith, x_lock-value t u blk e, i)
Step-IsExclusive {blk} (stops_reading t r w) i = ground (arith, unlock-value t blk, i)
Step-IsExclusive {blk} (stops_writing t r w) i = ground (arith, unlock-value t blk, i)

-- Whatever the transactions do in any order, if each asks for an exclusive lock while it holds the
-- block shared and gives back what it holds: one that holds the block exclusively is the only one
-- that holds it, and otherwise the table counts those that hold it, if that was so at the start.
pub Reach-IsExclusive :
    {blk : BlockId} {p q : Owners} → IsExclusive blk p → Reach blk p q → IsExclusive blk q
Reach-IsExclusive i here = i
Reach-IsExclusive i (next r st) = Step-IsExclusive st (Reach-IsExclusive i r)

-- Locking or unlocking one block, without a wait, leaves the value of every other.
pub locks_other :
    (a b : BlockId) (t : LockTable)
    → a ≢ b
    → (get_lock_value (s_lock [] a t).1 b ≡ get_lock_value t b)
      × (get_lock_value (x_lock [] a t).1 b ≡ get_lock_value t b)
      × (get_lock_value (unlock a t) b ≡ get_lock_value t b)
unfolding s_lock x_lock unlock
locks_other a b t ne = (
  ground (arith, same_block→eq a b, get_lock_value-set t a b (get_lock_value t a +ℤ pos 1)),
  ground (arith, same_block→eq a b, get_lock_value-set t a b (negsuc 0)),
  ground (
    arith,
    same_block→eq a b,
    get_lock_value-erase t a b,
    get_lock_value-set t a b (get_lock_value t a -ℤ pos 1),
  ),
)
