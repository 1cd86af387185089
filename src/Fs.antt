-- ===== src/Fs.antt =====
-- The package internal/fs: the table of open files and directories.
pub mod Handles
pub mod Files
pub mod Paths
pub mod Opening
mod Tests
