-- ===== src/Log.antt =====
-- The write-ahead log, src/libs/dbcore/log.
pub mod Iterator
pub mod Manager
pub mod Records
pub mod Append
pub mod Invariant
pub mod NewBlock
pub mod Extend
pub mod Replay
pub mod RoundTrip
pub mod Start
