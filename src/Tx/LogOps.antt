-- ===== src/Tx/LogOps.antt =====
-- The kinds of log records and their numbers: src/libs/dbcore/tx/log_ops.h.
use myc_db.Prelude.{ℕ, ◌*◌, ◌/◌, if◌then◌else◌, Option, none, some, ℤ, pos, ◌==ℤ◌}
use myc_db.File.Page.{to_int, int_size}

-- `log_operation`.
pub data LogOperation : Type 0 where
  checkpoint start commit rollback set_int set_str : LogOperation

-- `static_cast<int>(log_op)`.
unfoldable pub number : LogOperation → ℕ
number checkpoint = 0
number start = 1
number commit = 2
number rollback = 3
number set_int = 4
number set_str = 5

-- Rounded down to whole words.
unfoldable pub log_operation_to_int : LogOperation → ℤ
unfolding number
log_operation_to_int op = to_int (number op / int_size * int_size)

-- `static_cast<log_operation>(z)`, and `none` for the default case of a switch on it.
unfoldable pub operation_of : ℤ → Option LogOperation
operation_of z =
    if z ==ℤ pos 0
    then some checkpoint
    else if z ==ℤ pos 1
    then some start
    else if z ==ℤ pos 2
    then some commit
    else if z ==ℤ pos 3
    then some rollback
    else if z ==ℤ pos 4
    then some set_int
    else if z ==ℤ pos 5
    then some set_str
    else none
