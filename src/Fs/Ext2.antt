-- ===== src/Fs/Ext2.antt =====
-- The ext2 file system of kernel/fs/ext2.
pub mod Superblock
pub mod BlockGroup
pub mod Inode
pub mod Entry
pub mod ByteBitmap
pub mod Device
pub mod Outcome
pub mod Allocation
pub mod Release
pub mod Blocks
pub mod Files
pub mod Types
pub mod Directories
pub mod Entries
pub mod Removal
pub mod Calls
pub mod Creation
