-- ===== src/Memory.antt =====
-- kernel/memory and include/kernel/memory.
pub mod PhysicalAllocator
pub mod VirtualAllocator
