-- ===== src/Tests.antt =====
-- The theorems at concrete inputs, one module for each part of the program.
mod Pages
mod Files
mod Logs
mod Pools
mod Queries
mod Scans
mod Aggregates
mod Lookups
mod Transactions
mod Slots
mod Indexes
mod Hashes
mod Sorting
mod Estimates
