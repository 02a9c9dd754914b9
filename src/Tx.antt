-- ===== src/Tx.antt =====
-- Transactions, src/libs/dbcore/tx: the lock table and its clients, the records of the log, the buffers
-- of a transaction, and the transaction over all of them.
pub mod LockTable
pub mod Exclusion
pub mod LogOps
pub mod BufferList
pub mod Transaction
pub mod Access
pub mod Recovery
