-- ===== src/Metadata.antt =====
-- What the engine knows of its tables and indexes: src/libs/dbcore/metadata. Of it, the estimates of
-- sizes.
pub mod StatInfo
