-- ===== src/Storage.antt =====
-- The storage layer of LetDB: LetDB/include/let/storage and LetDB/src/storage.
pub mod Crc
pub mod Wal
pub mod Tests
