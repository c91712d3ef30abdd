-- ===== src/Fs.antt =====
-- The file systems of kernel/fs.
pub mod Memory
pub mod Ext2
