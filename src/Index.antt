-- ===== src/Index.antt =====
-- Indexes: src/libs/dbcore/index.
pub mod BtreePage
pub mod BtreeLeaf
pub mod BtreeDir
pub mod BtreeIndex
pub mod HashIndex
pub mod Contract
pub mod Finds
pub mod Scans
