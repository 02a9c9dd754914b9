-- ===== src/File.antt =====
-- The file layer, src/libs/dbcore/file: pages, block identifiers and the file manager over
-- `std::fstream`.
pub mod Page
pub mod Block
pub mod Stream
pub mod Manager
