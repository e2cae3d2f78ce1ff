-- ===== src/Rdb.antt =====
-- backend/internal/rdb: the objects of an RDB file as the commands that build them, and the loader
-- of the file.
pub mod Commands
pub mod Collections
pub mod Hashes
pub mod StreamEntries
pub mod Streams
pub mod Tair
pub mod Bloom
pub mod Object
pub mod Restore
pub mod Loader
pub mod Items
pub mod Dump
pub mod Packs
pub mod Pairs
pub mod Total
pub mod StreamTotal
pub mod ObjectTotal
pub mod LoaderTotal
pub mod Values
mod Tests
