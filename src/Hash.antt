-- ===== src/Hash.antt =====
-- The checksums of backend/internal/utils: crc16.go places keys in slots, crc64.go seals a dump.
pub mod Crc16
pub mod Crc64
mod Tests
