-- ===== src/Structure.antt =====
-- backend/internal/rdb/structure: the encodings inside an RDB file, read from a stream of bytes.
pub mod Reader
pub mod Length
pub mod Text
pub mod Lzf
pub mod Intset
pub mod Listpack
pub mod Ziplist
pub mod Module2
pub mod Float
pub mod Total
pub mod PackedTotal
mod Tests
