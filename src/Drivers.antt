-- ===== src/Drivers.antt =====
-- The storage drivers of src/drivers.
pub mod Handle
pub mod Lmdb
pub mod Store
pub mod Mdbx
pub mod Leveldb
pub mod Rocksdb
pub mod Iowow
pub mod Forestdb
pub mod Missing
pub mod Vedisdb
pub mod Upscaledb
pub mod Sophia
pub mod Sqlite3
pub mod Wiredtiger
pub mod Unqlite
pub mod Plain
mod Tests
