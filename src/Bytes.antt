-- ===== src/Bytes.antt =====
-- The bytes of code/kbase.h: words in little-endian order, growing buffers, readers and the checksum.
pub mod Word
pub mod Buf
pub mod Crc
pub mod Fields
pub mod Reader
mod Tests
