-- ===== src/Compression.antt =====
-- The package internal/fs/compression: the cache of decompressed blocks.
pub mod Cache
pub mod Reader
pub mod Formats
pub mod Cso
pub mod Zso
mod Tests
