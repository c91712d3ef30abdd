-- ===== src/Vfs.antt =====
-- kernel/vfs and include/kernel/vfs.
pub mod Path
pub mod Data
pub mod Nodes
pub mod Calls
pub mod Transfer
pub mod Names
pub mod Validity
pub mod Found
pub mod Preserved
pub mod Opening
pub mod Closing
pub mod Sequence
pub mod Duplicate
pub mod Errors
pub mod Mounts
pub mod Bounds
pub mod Pipes
